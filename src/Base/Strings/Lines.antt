-- ===== src/Base/Strings/Lines.antt =====
-- Lines that stand in a text, and lines that a trim leaves as they are.
use edgi_os.Base.Text.{Bytes}
use edgi_os.Base.Tests.{lt→ltb}
use edgi_os.Base.Lists.{length}
use edgi_os.Base.Strings.{
  split, split_two, trim_right, trim_end, trim_space, is_space, drop_cr, scan_parts, scan_lines,
  max_token,
}
use edgi_os.Base.Strings.Laws.{Lacks}
use Prim.Native.Nat.{ℕ, ◌<◌}
use mathlib.Core.Path.{◌≡◌, refl, ap}
use mathlib.Core.Logic.{◌≢◌}
use mathlib.Core.Bool.{Bool, true, false}
use mathlib.Core.Option.{some}
use mathlib.Core.List.{List, [], ◌∷◌, ◌++◌}
use native.Mathlib.Omega.{arith}

pub split-line :
    (l rest : Bytes) (sep : ℕ) → Lacks sep l → split (l ++ sep ∷ rest) sep ≡ l ∷ split rest sep
unfolding split
split-line [] rest sep h = ground arith
split-line (c ∷ l) rest sep (n, h) = ground (arith, split-line l rest sep h)

pub split_two-at :
    (l rest : Bytes) (sep : ℕ) → Lacks sep l → split_two (l ++ sep ∷ rest) sep ≡ (l, some rest)
unfolding split_two
split_two-at [] rest sep h = ground arith
split_two-at (c ∷ l) rest sep (n, h) = ground (arith, split_two-at l rest sep h)

pub drop_cr-end : (s : Bytes) (c : ℕ) → c ≢ 13 → drop_cr (s ++ c ∷ []) ≡ s ++ c ∷ []
drop_cr-end [] c n = ground arith
drop_cr-end (d ∷ []) c n = ground arith
drop_cr-end (d ∷ e ∷ s) c n = ap (λ (t : Bytes). d ∷ t) (drop_cr-end (e ∷ s) c n)

trim_end-keeps :
    (b : Bool) (d : ℕ) (s : Bytes) (c : ℕ) → trim_end b d (s ++ c ∷ []) ≡ d ∷ (s ++ c ∷ [])
trim_end-keeps true d [] c = refl
trim_end-keeps true d (e ∷ s) c = refl
trim_end-keeps false d s c = refl

trim_right-end :
    (drops : ℕ → Bool) (s : Bytes) (c : ℕ)
    → drops c ≡ false
    → trim_right drops (s ++ c ∷ []) ≡ s ++ c ∷ []
unfolding trim_right
trim_right-end drops [] c n = rw n refl
trim_right-end drops (d ∷ s) c n = rw (trim_right-end drops s c n) (trim_end-keeps (drops d) d s c)

-- A text that begins and ends with bytes that are no spaces is as it was.
pub trim_space-ends :
    (b : ℕ) (s : Bytes) (c : ℕ)
    → is_space b ≡ false
    → is_space c ≡ false
    → trim_space (b ∷ (s ++ c ∷ [])) ≡ b ∷ (s ++ c ∷ [])
unfolding trim_space
trim_space-ends b s c h n = rw h (trim_right-end is_space (b ∷ s) c n)

scan_parts-line :
    (l : Bytes) (c : ℕ) (ls : List Bytes)
    → c ≢ 13
    → length (l ++ c ∷ []) < max_token
    → (scan_parts ((l ++ c ∷ []) ∷ ls)).0 ≡ (l ++ c ∷ []) ∷ (scan_parts ls).0
unfolding scan_parts
scan_parts-line [] c ls n b = (ap (λ (t : Bytes). t ∷ (scan_parts ls).0) (drop_cr-end [] c n))
scan_parts-line (d ∷ l) c ls n b =
    rw (lt→ltb (length (d ∷ (l ++ c ∷ []))) max_token b)
      (ap (λ (t : Bytes). t ∷ (scan_parts ls).0) (drop_cr-end (d ∷ l) c n))

-- A text that is a line with its newline and more.
pub scan_lines-line :
    (l : Bytes) (c : ℕ) (rest : Bytes)
    → Lacks 10 (l ++ c ∷ [])
    → c ≢ 13
    → length (l ++ c ∷ []) < max_token
    → (scan_lines ((l ++ c ∷ []) ++ 10 ∷ rest)).0 ≡ (l ++ c ∷ []) ∷ (scan_lines rest).0
unfolding scan_lines
scan_lines-line l c rest h n b =
    rw (split-line (l ++ c ∷ []) rest 10 h) (scan_parts-line l c (split rest 10) n b)
