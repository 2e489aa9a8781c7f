-- ===== src/Questions/Laws.antt =====
-- What the questions return.
use edgi_os.Base.{
  Bytes, codes, ℕ, zero, suc, ◌<◌, ◌≡◌, ◌≢◌, List, [], ◌∷◌, ◌++◌, Option, none, some, true, false,
  All, refl, ◌∙◌, ◌==◌, arith, inl, inr, Bool-cases, length-append, length, is_empty, ap, take, ltb,
  if◌then◌else◌, ◌+◌,
}
use edgi_os.Base.Strings.{Signed, plus, minus, atoi, parse_int, itoa, trim_space}
use edgi_os.Os.World.{ok, World, gets, for_each, emit, ◌>>=◌}
use edgi_os.Os.Process.{read_line}
use edgi_os.Questions.{shown, print_to_term}
use edgi_os.Questions.{
  choice, complaint, def_string, or_default, prompt, prompt_from, prompt_optional, select_from,
  prompt_options,
}

choice-below : (count i : ℕ) (n : Option Signed) → choice count n ≡ some i → i < count
choice-below count i n h = ground arith

abbrev number_text : Bytes → Bytes
number_text def = codes "Select Number [" ++ (def ++ codes "]: ")

-- What a line stands for at a list of so many options.
abbrev pub line_choice : Bytes → ℕ → Bytes → Option ℕ
line_choice def count line = choice count (atoi (or_default line def))

pub take-length : (ls : List Bytes) → take (length ls) ls ≡ ls
take-length [] = refl
take-length (l ∷ ls) = ap (λ (rest : List Bytes). l ∷ rest) (take-length ls)

-- A blank line without a default is asked for again.
select_from-blank :
    (n : ℕ) (def line : Bytes) (lines : List Bytes) (count : ℕ) (w : World)
    → w.input ≡ line ∷ lines
    → w.unbuffered lines ≡ lines
    → is_empty (or_default line def) ≡ true
    → select_from (suc n) def count w
      ≡ select_from
          (suc n)
          def
          count
          (emit (shown w.terminal (number_text def)) (record w { input = lines }))
unfolding select_from prompt prompt_from prompt_optional read_line gets ◌>>=◌
select_from-blank n def line lines count w e u b = ground (arith, take-length lines)

select_from-answer :
    (n : ℕ) (def line : Bytes) (lines : List Bytes) (count : ℕ) (w : World)
    → w.input ≡ line ∷ lines
    → w.unbuffered lines ≡ lines
    → is_empty (or_default line def) ≡ false
    → line_choice def count line ≡ none
    → select_from (suc n) def count w
      ≡ select_from n def count (
          emit
            (shown w.terminal (complaint count (or_default line def) (atoi (or_default line def))))
            (emit (shown w.terminal (number_text def)) (record w { input = lines })))
unfolding select_from prompt prompt_from prompt_optional read_line gets ◌>>=◌
select_from-answer n def line lines count w e u b c = ground (arith, take-length lines)

select_from-valid :
    (n : ℕ) (def line : Bytes) (lines : List Bytes) (count i : ℕ) (w : World)
    → w.input ≡ line ∷ lines
    → w.unbuffered lines ≡ lines
    → line_choice def count line ≡ some i
    → select_from (suc n) def count w
      ≡ (ok i, emit (shown w.terminal (number_text def)) (record w { input = lines }))
unfolding select_from prompt prompt_from prompt_optional read_line gets ◌>>=◌ parse_int
select_from-valid n def line lines count i w e u c = ground (arith, take-length lines)

-- The first line whose number names one of the options is the answer: blank lines (unless the default is a
-- number) and other answers before it are asked for again, and the lines behind it are left.
pub select_from-first :
    (n : ℕ) (def : Bytes) (count i : ℕ) (before : List Bytes) (line : Bytes) (after : List Bytes)
    (w : World)
    → w.input ≡ before ++ line ∷ after
    → ((ls : List Bytes) → w.unbuffered ls ≡ ls)
    → All (λ l. line_choice def count l ≡ none) before
    → line_choice def count line ≡ some i
    → length before < n
    → ((select_from n def count w).0 ≡ ok i)
      × ((select_from n def count w).1.input ≡ after)
      × (i < count)
select_from-first zero def count i before line after w e u h c less = absurd (omega arith)
select_from-first (suc n) def count i [] line after w e u h c less =
    rw (select_from-valid n def line after count i w e (u after) c)
      (refl, refl, choice-below count i _ c)
select_from-first (suc n) def count i (b ∷ before) line after w e u (h, hs) c less =
    elim (Bool-cases (is_empty (or_default b def))) [
      | inl blank ↦
          rw
            (select_from-blank n def b (before ++ line ∷ after) count w e
              (u (before ++ line ∷ after)) blank)
            (select_from-first (suc n) def count i before line after _ refl u hs c (omega arith))
      | inr given ↦
          rw
            (select_from-answer n def b (before ++ line ∷ after) count w e
              (u (before ++ line ∷ after)) given h)
            (select_from-first n def count i before line after _ refl u hs c (omega arith))
    ]

-- Printing a list leaves the input.
print_all-input :
    (texts : List Bytes) (w : World)
    → (v : World) × (for_each texts print_to_term w ≡ (ok tt, v))
      × (v.input ≡ w.input)
      × (v.unbuffered ≡ w.unbuffered)
unfolding for_each ◌>>=◌
print_all-input [] w = (w, refl, refl, refl)
print_all-input (t ∷ ts) w = print_all-input ts (emit (shown w.terminal t) w)

-- The text of the number that stands for the default: one more than its place, and nothing for a
-- negative one.
unfoldable pub default_text : Signed → Bytes
default_text (plus n) = itoa (1 + n)
default_text (minus zero) = itoa 1
default_text (minus (suc n)) = []

-- The option that a text names, counted from 1.
unfoldable pub named_option : ℕ → Option Signed → Option ℕ
named_option count (some (plus zero)) = none
named_option count (some (plus (suc i))) = if ltb i count then some i else none
named_option count (some (minus n)) = none
named_option count none = none

-- The option that a line names, where a blank one stands for the default.
unfoldable pub line_option : Signed → ℕ → Bytes → Option ℕ
unfolding default_text named_option
line_option def count line =
    named_option count
      (atoi (if is_empty (trim_space line) then default_text def else trim_space line))

def_string-text : (def : Signed) → def_string def ≡ default_text def
unfolding default_text
def_string-text (plus n) = ap itoa (omega arith)
def_string-text (minus zero) = refl
def_string-text (minus (suc n)) = refl

choice-option : (count : ℕ) (o : Option Signed) → choice count o ≡ named_option count o
unfolding named_option
choice-option count none = refl
choice-option count (some (plus zero)) = refl
choice-option count (some (plus (suc i))) = refl
choice-option count (some (minus n)) = refl

line_choice-option :
    (def : Signed) (count : ℕ) (line : Bytes)
    → line_choice (def_string def) count line ≡ line_option def count line
unfolding line_option
line_choice-option def count line = rw (def_string-text def) (choice-option count _)

All-choice :
    (def : Signed) (count : ℕ) (lines : List Bytes)
    → All (λ l. line_option def count l ≡ none) lines
    → All (λ l. line_choice (def_string def) count l ≡ none) lines
All-choice def count [] h = tt
All-choice def count (l ∷ ls) (h, hs) =
    (line_choice-option def count l ∙ h, All-choice def count ls hs)

-- A menu that does not have exactly one option, on a terminal, where a reader's buffer takes no more
-- than its line: the answer is the option that the first line to name one names, its place is in
-- range, and the lines behind that line are left. Blank lines, which stand for the default if it is not
-- negative, and other answers before it are asked for again.
pub prompt_options-first :
    (text : Bytes) (def : Signed) (options : List Bytes) (i : ℕ) (before : List Bytes)
    (line : Bytes) (after : List Bytes) (w : World)
    → length options ≢ 1
    → w.input ≡ before ++ line ∷ after
    → ((ls : List Bytes) → w.unbuffered ls ≡ ls)
    → All (λ l. line_option def (length options) l ≡ none) before
    → line_option def (length options) line ≡ some i
    → let (r, w') = prompt_options text def options w in
      (r ≡ ok i) × (w'.input ≡ after) × (i < length options)
unfolding prompt_options gets ◌>>=◌
prompt_options-first text def options i before line after w several e u h c =
    let (v, printing, kept, buffer) = print_all-input options (emit (shown w.terminal text) w) in
    let fresh : v.input ≡ before ++ line ∷ after = kept ∙ e in
    let all : (ls : List Bytes) → v.unbuffered ls ≡ ls = λ ls. rw buffer (u ls) in
    let other : (length options == 1) ≡ false = ground arith in
    let enough : length before < suc (length v.input) =
      rw fresh (omega (arith, length-append before (line ∷ after))) in
    rw (other, printing)
      (select_from-first (suc (length v.input)) (def_string def) (length options) i before line
        after v fresh all (All-choice def (length options) before h)
        (line_choice-option def (length options) line ∙ c) enough)
