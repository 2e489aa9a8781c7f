-- ===== src/Base/Strings.antt =====
-- What the program uses of Go's `strings`, `bufio` and `strconv`, on ASCII text.
pub mod Laws
pub mod Lines
use mathlib.Core.List.{reverse}
use edgi_os.Base.Text.{Bytes, codes, has_prefix, same, is_empty}
use edgi_os.Base.Tests.{◌==◌, ltb, leb, if◌then◌else◌}
use edgi_os.Base.Lists.{length, drop}
use Prim.Native.Nat.{ℕ, zero, suc, ◌+◌, ◌-◌, ◌*◌, ◌/◌, ◌%◌, ◌^◌}
use mathlib.Core.Bool.{Bool, true, false, ◌||◌, ◌&&◌, not}
use mathlib.Core.Option.{Option, none, some}
use mathlib.Core.List.{List, [], ◌∷◌, ◌++◌, map}

abbrev pub push_head : ℕ → List Bytes → List Bytes
push_head c [] = (c ∷ []) ∷ []
push_head c (p ∷ ps) = (c ∷ p) ∷ ps

-- strings.Split(s, sep) and strings.SplitN(s, sep, -1), for a separator of one byte
unfoldable pub split : Bytes → ℕ → List Bytes
split [] sep = [] ∷ []
split (c ∷ s) sep = let rest = split s sep in if c == sep then [] ∷ rest else push_head c rest

abbrev pub push_first : ℕ → Bytes × Option Bytes → Bytes × Option Bytes
push_first c (a, b) = (c ∷ a, b)

-- strings.SplitN(s, sep, 2): the text before the first separator, and what follows it
unfoldable pub split_two : Bytes → ℕ → Bytes × Option Bytes
split_two [] sep = ([], none)
split_two (c ∷ s) sep =
    let rest = split_two s sep in if c == sep then ([], some s) else push_first c rest

-- strings.Join(parts, sep)
unfoldable pub join : List Bytes → Bytes → Bytes
join [] sep = []
join (p ∷ []) sep = p
join (p ∷ q ∷ ps) sep = p ++ (sep ++ join (q ∷ ps) sep)

-- unicode.IsSpace on ASCII
unfoldable pub is_space : ℕ → Bool
is_space c = c == b' ' || (leb 9 c && leb c 13)

unfoldable pub trim_left : (ℕ → Bool) → Bytes → Bytes
trim_left drops [] = []
trim_left drops (c ∷ s) = let rest = trim_left drops s in if drops c then rest else c ∷ s

abbrev pub trim_end : Bool → ℕ → Bytes → Bytes
trim_end true c [] = []
trim_end true c (d ∷ s) = c ∷ d ∷ s
trim_end false c s = c ∷ s

unfoldable pub trim_right : (ℕ → Bool) → Bytes → Bytes
trim_right drops [] = []
trim_right drops (c ∷ s) = trim_end (drops c) c (trim_right drops s)

-- strings.TrimSpace
unfoldable pub trim_space : Bytes → Bytes
unfolding trim_left trim_right is_space
trim_space s = trim_right is_space (trim_left is_space s)

-- strings.Trim(s, "c")
unfoldable pub trim : Bytes → ℕ → Bytes
unfolding trim_left trim_right
trim s c = trim_right (λ b. b == c) (trim_left (λ b. b == c) s)

-- strings.TrimPrefix
unfoldable pub trim_prefix : Bytes → Bytes → Bytes
unfolding has_prefix
trim_prefix s p = if has_prefix s p then drop (length p) s else s

abbrev pub keep_word : Bytes → List Bytes → List Bytes
keep_word [] ws = ws
keep_word (c ∷ w) ws = (c ∷ w) ∷ ws

-- The first word of the text, empty where it begins with a space, and the words behind it.
unfoldable pub words : Bytes → Bytes × List Bytes
unfolding is_space
words [] = ([], [])
words (c ∷ s) = let (w, ws) = words s in if is_space c then ([], keep_word w ws) else (c ∷ w, ws)

-- strings.Fields
unfoldable pub fields : Bytes → List Bytes
unfolding words
fields s = let (w, ws) = words s in keep_word w ws

-- The limit of bufio.Scanner on a line, its newline counted.
abbrev pub max_token : ℕ
max_token = 65536

abbrev pub drop_cr : Bytes → Bytes
drop_cr [] = []
drop_cr (c ∷ []) = if c == 13 then [] else c ∷ []
drop_cr (c ∷ d ∷ s) = c ∷ drop_cr (d ∷ s)

-- The tokens of bufio.Scanner by lines, and whether it stopped at a line that is too long.
-- What follows the last newline is a line unless it is empty.
unfoldable pub scan_parts : List Bytes → List Bytes × Bool
scan_parts [] = ([], false)
scan_parts ([] ∷ []) = ([], false)
scan_parts (l ∷ ls) =
    let (rest, long) = scan_parts ls in
    if ltb (length l) max_token then (drop_cr l ∷ rest, long) else ([], true)

unfoldable pub scan_lines : Bytes → List Bytes × Bool
unfolding scan_parts split
scan_lines s = scan_parts (split s 10)

-- strings.ToLower and strings.ToUpper
unfoldable pub to_lower : Bytes → Bytes
to_lower s = map (λ c. if leb b'A' c && leb c b'Z' then c + 32 else c) s

unfoldable pub to_upper : Bytes → Bytes
to_upper s = map (λ c. if leb b'a' c && leb c b'z' then c - 32 else c) s

-- strings.HasSuffix
unfoldable pub has_suffix : Bytes → Bytes → Bool
unfolding has_prefix
has_suffix s p = has_prefix (reverse s) (reverse p)

unfoldable pub itoa_digits : ℕ → ℕ → Bytes → Bytes
itoa_digits zero n out = out
itoa_digits (suc fuel) n out =
    let rest = itoa_digits fuel (n / 10) ((b'0' + n % 10) ∷ out) in
    if ltb n 10 then (b'0' + n) ∷ out else rest

-- strconv.Itoa of a number that is not negative; a round divides by ten, so n + 1 rounds are enough
unfoldable pub itoa : ℕ → Bytes
unfolding itoa_digits
itoa n = itoa_digits (suc n) n []

-- The value of a text of digits, `none` at the empty text and at any other byte.
unfoldable pub read_digits : ℕ → Bytes → ℕ → Option ℕ
read_digits base [] acc = some acc
read_digits base (c ∷ s) acc =
    let rest = read_digits base s (acc * base + (c - b'0')) in
    if leb b'0' c && ltb c (b'0' + base) then rest else none

-- A number with its sign: `minus n` stands for -n.
pub data Signed : Type 0 where
  plus minus : ℕ → Signed

unfoldable pub read_sized : ℕ → ℕ → Bool → Bytes → Option Signed
unfolding read_digits
read_sized base bits negative [] = none
read_sized base bits negative (c ∷ s) = elim (read_digits base (c ∷ s) 0) [
  | none ↦ none
  | some n ↦
      if negative
      then if leb n (2 ^ (bits - 1)) then some (minus n) else none
      else if ltb n (2 ^ (bits - 1))
      then some (plus n)
      else none
]

-- strconv.ParseInt(s, base, bits) for a base up to ten, and strconv.Atoi as base 10 and 64 bits
unfoldable pub parse_int : Bytes → ℕ → ℕ → Option Signed
unfolding read_sized
parse_int [] base bits = none
parse_int (c ∷ s) base bits =
    if c == b'-'
    then read_sized base bits true s
    else if c == b'+'
    then read_sized base bits false s
    else read_sized base bits false (c ∷ s)

abbrev pub atoi : Bytes → Option Signed
atoi s = parse_int s 10 64
