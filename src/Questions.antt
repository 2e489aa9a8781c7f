-- ===== src/Questions.antt =====
-- pkg/questions/questions.go. A loop that asks takes a line of the input in each round, so one round
-- more than there are lines is enough.
pub mod Laws
pub mod Fuel
pub mod YesNo
use edgi_os.Base.{
  Bytes, codes, ℕ, zero, suc, ◌+◌, ◌==◌, Bool, true, false, List, [], ◌∷◌, ◌++◌, Option, none, some,
  is_empty, same, ltb, length, if◌then◌else◌,
}
use edgi_os.Base.Strings.{Signed, plus, minus, trim_space, to_lower, itoa, atoi}
use edgi_os.Os.World.{
  Error, eof, ok, World, M, Event, printed, printed_error, emit, pure, raise, gets, for_each, ◌>>=◌,
  ◌>>◌,
}
use edgi_os.Os.Process.{read_line, print}

-- Where a text goes: to the standard output if that is a terminal, and to the standard error if not.
abbrev pub shown : Bool → Bytes → Event
shown terminal s = if terminal then printed s else printed_error s

-- PrintToTerm, PrintlnToTerm and PrintfToTerm, of the text that they make
abbrev pub print_to_term : Bytes → M (Unit {0})
print_to_term s w = (ok tt, emit (shown w.terminal s) w)

-- What an answer stands for: the default where it is blank.
abbrev pub or_default : Bytes → Bytes → Bytes
or_default line def = if is_empty (trim_space line) then def else trim_space line

abbrev pub rounds : World → ℕ
rounds w = suc (length w.input)

unfoldable pub prompt_optional : Bytes → Bytes → M Bytes
prompt_optional text def = do print_to_term text; line ← read_line; pure (or_default line def)

unfoldable pub prompt_from : ℕ → Bytes → Bytes → M Bytes
unfolding prompt_optional
prompt_from zero text def = raise eof
prompt_from (suc n) text def =
    let again = prompt_from n text def in
    do answer ← prompt_optional text def; if is_empty answer then again else pure answer

unfoldable pub prompt : Bytes → Bytes → M Bytes
unfolding prompt_from
prompt text def = do n ← gets rounds; prompt_from n text def

abbrev pub def_string : Signed → Bytes
def_string (plus n) = itoa (n + 1)
def_string (minus zero) = itoa 1
def_string (minus (suc n)) = []

-- The place of the option that a number from 1 names.
abbrev pub choice : ℕ → Option Signed → Option ℕ
choice count (some (plus (suc n))) = if ltb n count then some n else none
choice count _ = none

-- What is printed before the next round.
abbrev pub complaint : ℕ → Bytes → Option Signed → Bytes
complaint count ans none = codes "Invalid number: " ++ (ans ++ codes "\n")
complaint count ans (some n) = codes "Select a number between 1 and " ++ (itoa count ++ codes "\n")

unfoldable pub select_from : ℕ → Bytes → ℕ → M ℕ
unfolding prompt
select_from zero def count = raise eof
select_from (suc n) def count =
    let again = select_from n def count in
    do
      ans ← prompt (codes "Select Number [" ++ (def ++ codes "]: ")) def
      elim (choice count (atoi ans)) [
        | some i ↦ pure i
        | none ↦ print_to_term (complaint count ans (atoi ans)) >> again
      ]

unfoldable pub prompt_options : Bytes → Signed → List Bytes → M ℕ
unfolding select_from
prompt_options text def options = if length options == 1 then pure 0 else do
  print_to_term text
  for_each options print_to_term
  n ← gets rounds
  select_from n (def_string def) (length options)

unfoldable pub numbered : ℕ → List Bytes → List Bytes
numbered i [] = []
numbered i (o ∷ os) = (itoa (i + 1) ++ (codes ". " ++ (o ++ codes "\n"))) ∷ numbered (i + 1) os

unfoldable pub prompt_formatted_options : Bytes → Signed → List Bytes → M ℕ
unfolding prompt_options numbered
prompt_formatted_options text def options =
    prompt_options (text ++ codes "\n") def (numbered 0 options)

abbrev pub yes_no : Bytes → Option Bool
yes_no ans =
    if same (to_lower ans) (codes "y")
    then some true
    else if same (to_lower ans) (codes "n")
    then some false
    else none

unfoldable pub bool_from : ℕ → Bytes → Bytes → M Bool
unfolding prompt
bool_from zero msg def = raise eof
bool_from (suc n) msg def =
    let again = bool_from n msg def in
    do
      yn ← prompt msg def
      elim (yes_no yn) [ some b ↦ pure b | none ↦ print (codes "Enter y or n\n") >> again ]

unfoldable pub prompt_bool : Bytes → Bool → M Bool
unfolding bool_from
prompt_bool text def = do
  n ← gets rounds
  bool_from n (text ++ (if def then codes " [Y/n]: " else codes " [y/N]: "))
      (if def then codes "y" else codes "n")
