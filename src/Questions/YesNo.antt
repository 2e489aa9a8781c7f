-- ===== src/Questions/YesNo.antt =====
-- What a question for yes or no returns.
use edgi_os.Base.{
  Bytes, codes, ℕ, zero, suc, ◌<◌, ◌≡◌, List, [], ◌∷◌, ◌++◌, Bool, true, false, Option, none, some,
  All, refl, arith, length, length-append, is_empty, if◌then◌else◌,
}
use edgi_os.Base.Strings.{to_lower}
use edgi_os.Os.World.{ok, World, printed, gets, emit, ◌>>=◌}
use edgi_os.Os.Process.{read_line}
use edgi_os.Questions.Laws.{take-length}
use edgi_os.Questions.{shown}
use edgi_os.Questions.{
  or_default, prompt, prompt_from, prompt_optional, yes_no, bool_from, prompt_bool,
}

-- What a line stands for: a blank one for the default.
abbrev pub line_answer : Bytes → Bytes → Option Bool
line_answer def line = yes_no (or_default line def)

bool_from-valid :
    (n : ℕ) (msg def line : Bytes) (lines : List Bytes) (b : Bool) (w : World)
    → w.input ≡ line ∷ lines
    → w.unbuffered lines ≡ lines
    → is_empty def ≡ false
    → line_answer def line ≡ some b
    → bool_from (suc n) msg def w ≡ (ok b, emit (shown w.terminal msg) (record w { input = lines }))
unfolding bool_from prompt prompt_from prompt_optional read_line gets ◌>>=◌ to_lower
bool_from-valid n msg def line lines b w e u d c = ground (arith, take-length lines)

bool_from-other :
    (n : ℕ) (msg def line : Bytes) (lines : List Bytes) (w : World)
    → w.input ≡ line ∷ lines
    → w.unbuffered lines ≡ lines
    → is_empty def ≡ false
    → line_answer def line ≡ none
    → bool_from (suc n) msg def w
      ≡ bool_from n msg def (
          emit
            (printed (codes "Enter y or n\n"))
            (emit (shown w.terminal msg) (record w { input = lines })))
unfolding bool_from prompt prompt_from prompt_optional read_line gets ◌>>=◌
bool_from-other n msg def line lines w e u d c = ground (arith, take-length lines)

bool_from-first :
    (n : ℕ) (msg def : Bytes) (b : Bool) (before : List Bytes) (line : Bytes) (after : List Bytes)
    (w : World)
    → w.input ≡ before ++ line ∷ after
    → ((ls : List Bytes) → w.unbuffered ls ≡ ls)
    → is_empty def ≡ false
    → All (λ l. line_answer def l ≡ none) before
    → line_answer def line ≡ some b
    → length before < n
    → ((bool_from n msg def w).0 ≡ ok b) × ((bool_from n msg def w).1.input ≡ after)
bool_from-first zero msg def b before line after w e u d h c less = absurd (omega arith)
bool_from-first (suc n) msg def b [] line after w e u d h c less =
    rw (bool_from-valid n msg def line after b w e (u after) d c) (refl, refl)
bool_from-first (suc n) msg def b (x ∷ before) line after w e u d (h, hs) c less =
    rw (bool_from-other n msg def x (before ++ line ∷ after) w e (u (before ++ line ∷ after)) d h)
      (bool_from-first n msg def b before line after _ refl u d hs c (omega arith))

abbrev pub default_text : Bool → Bytes
default_text def = if def then codes "y" else codes "n"

default-given : (def : Bool) → is_empty (default_text def) ≡ false
default-given true = refl
default-given false = refl

-- On a terminal the answer is that of the first line that is yes or no in either case of letters, a blank line counting
-- as the default; the lines before it are asked for again, and those behind it are left.
pub prompt_bool-first :
    (text : Bytes) (def b : Bool) (before : List Bytes) (line : Bytes) (after : List Bytes)
    (w : World)
    → w.input ≡ before ++ line ∷ after
    → ((ls : List Bytes) → w.unbuffered ls ≡ ls)
    → All (λ l. line_answer (default_text def) l ≡ none) before
    → line_answer (default_text def) line ≡ some b
    → let (r, w') = prompt_bool text def w in (r ≡ ok b) × (w'.input ≡ after)
unfolding prompt_bool gets ◌>>=◌
prompt_bool-first text def b before line after w e u h c =
    bool_from-first (suc (length w.input)) _ (default_text def) b before line after w e u
      (default-given def) h c (rw e (omega (arith, length-append before (line ∷ after))))
