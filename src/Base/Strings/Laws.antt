-- ===== src/Base/Strings/Laws.antt =====
-- Laws of the text functions.
use edgi_os.Base.Text.{Bytes, codes}
use edgi_os.Base.Tests.{◌==◌, Bool-cases}
use edgi_os.Base.Lists.{All}
use edgi_os.Base.Strings.{
  split, push_head, trim_space, fields, scan_lines, itoa, parse_int, plus, minus, atoi,
}
use Prim.Native.Nat.{ℕ}
use mathlib.Core.Path.{◌≡◌, refl}
use mathlib.Core.Logic.{◌≢◌, inl, inr}
use mathlib.Core.Option.{none, some}
use mathlib.Core.List.{List, [], ◌∷◌}
use native.Mathlib.Omega.{arith}

abbrev pub Lacks : ℕ → Bytes → Type 0
Lacks b = All (λ c. c ≢ b)

push_head-All :
    (c b : ℕ) (ps : List Bytes) → c ≢ b → All (Lacks b) ps → All (Lacks b) (push_head c ps)
push_head-All c b [] n _ = ((n, tt), tt)
push_head-All c b (p ∷ ps) n (h, hs) = ((n, h), hs)

-- No part holds the separator.
pub split-Lacks : (s : Bytes) (sep : ℕ) → All (Lacks sep) (split s sep)
unfolding split
split-Lacks [] sep = (tt, tt)
split-Lacks (c ∷ s) sep = elim (Bool-cases (c == sep)) [
  | inl e ↦ rw e (tt, split-Lacks s sep)
  | inr n ↦ rw n (push_head-All c sep (split s sep) (ground arith) (split-Lacks s sep))
]

fields_test : fields (codes " a  bc d ") ≡ codes "a" ∷ codes "bc" ∷ codes "d" ∷ []
unfolding fields
fields_test = refl

trim_test : trim_space (codes " \t a b \n") ≡ codes "a b"
unfolding trim_space
trim_test = refl

lines_test : (scan_lines (codes "a\r\n\nb")).0 ≡ codes "a" ∷ [] ∷ codes "b" ∷ []
unfolding scan_lines
lines_test = refl

itoa_test : itoa 1050 ≡ codes "1050"
unfolding itoa
itoa_test = refl

atoi_test :
    (atoi (codes "-12") ≡ some (minus 12))
    × (atoi (codes "1a") ≡ none)
    × (atoi (codes "+7") ≡ some (plus 7))
unfolding parse_int
atoi_test = (refl, refl, refl)
