-- ===== src/Base/Quote.antt =====
-- strconv.Quote and strconv.Unquote on ASCII text. The escapes `\u` and `\U`, which Quote writes
-- for no ASCII byte, are read as errors here.
pub mod Laws
use Prim.Native.Nat.{ℕ, zero, suc, ◌+◌, ◌-◌, ◌*◌, ◌/◌, ◌%◌}
use mathlib.Core.Bool.{Bool, true, false, ◌||◌, ◌&&◌}
use mathlib.Core.Option.{Option, none, some}
use mathlib.Core.List.{List, [], ◌∷◌, ◌++◌}
use edgi_os.Base.Text.{Bytes}
use edgi_os.Base.Tests.{ltb, leb, ◌==◌, if◌then◌else◌}

abbrev pub hex_digit : ℕ → ℕ
hex_digit n = if ltb n 10 then n + 48 else n + 87

abbrev pub backslash : ℕ
backslash = 92

-- The letter that stands behind the backslash for a control byte that has one.
unfoldable pub control_letter : ℕ → Option ℕ
control_letter c =
    if c == 7
    then some b'a'
    else if c == 8
    then some b'b'
    else if c == 12
    then some b'f'
    else if c == 10
    then some b'n'
    else if c == 13
    then some b'r'
    else if c == 9
    then some b't'
    else if c == 11
    then some b'v'
    else none

unfoldable pub quote_control : ℕ → Bytes
quote_control c = elim (control_letter c) [
  | some l ↦ backslash ∷ l ∷ []
  | none ↦ backslash ∷ b'x' ∷ hex_digit (c / 16) ∷ hex_digit (c % 16) ∷ []
]

unfoldable pub quote_byte : ℕ → Bytes
unfolding quote_control
quote_byte c =
    if c == 34 || c == backslash
    then backslash ∷ c ∷ []
    else if leb 32 c && ltb c 127
    then c ∷ []
    else quote_control c

unfoldable pub quote_body : Bytes → Bytes
unfolding quote_byte
quote_body [] = []
quote_body (c ∷ s) = quote_byte c ++ quote_body s

unfoldable pub quote : Bytes → Bytes
unfolding quote_body control_letter
quote s = 34 ∷ (quote_body s ++ 34 ∷ [])

-- Where the reader of a quoted text stands: outside an escape, behind its backslash, or with so
-- many hexadecimal or octal digits to come behind a value.
pub data Place : Type 0 where
  plain : Place
  escape : Place
  hex : ℕ → ℕ → Place
  octal : ℕ → ℕ → Place

abbrev pub push : ℕ → Option Bytes → Option Bytes
push c none = none
push c (some s) = some (c ∷ s)

abbrev pub hex_value : ℕ → Option ℕ
hex_value c =
    if leb 48 c && leb c 57
    then some (c - 48)
    else if leb 97 c && leb c 102
    then some (c - 87)
    else if leb 65 c && leb c 70
    then some (c - 55)
    else none

-- The byte of an escape of one letter; a quote may be escaped only inside its own kind.
unfoldable pub simple_escape : ℕ → ℕ → Option ℕ
simple_escape q c =
    if c == b'a'
    then some 7
    else if c == b'b'
    then some 8
    else if c == b'f'
    then some 12
    else if c == b'n'
    then some 10
    else if c == b'r'
    then some 13
    else if c == b't'
    then some 9
    else if c == b'v'
    then some 11
    else if c == backslash
    then some backslash
    else if c == q
    then some q
    else none

-- What stands between the quotes.
unfoldable pub unquote_body : ℕ → Place → Bytes → Option Bytes
unquote_body q plain [] = some []
unquote_body q plain (c ∷ s) =
    let escaped = unquote_body q escape s in
    let copied = push c (unquote_body q plain s) in
    if c == backslash then escaped else if c == q || c == 10 then none else copied
unquote_body q escape [] = none
unquote_body q escape (c ∷ s) =
    let hexed = unquote_body q (hex 2 0) s in
    let octed = unquote_body q (octal 2 (c - 48)) s in
    let rest = unquote_body q plain s in
    if c == b'x'
    then hexed
    else if leb 48 c && leb c 55
    then octed
    else elim (simple_escape q c) [ none ↦ none | some b ↦ push b rest ]
unquote_body q (hex n v) [] = none
unquote_body q (hex zero v) (c ∷ s) = none
unquote_body q (hex (suc zero) v) (c ∷ s) =
    let rest = unquote_body q plain s in
    elim (hex_value c) [ none ↦ none | some d ↦ push (v * 16 + d) rest ]
unquote_body q (hex (suc (suc n)) v) (c ∷ s) =
    let more = λ (d : ℕ). unquote_body q (hex (suc n) (v * 16 + d)) s in
    elim (hex_value c) [ none ↦ none | some d ↦ more d ]
unquote_body q (octal n v) [] = none
unquote_body q (octal zero v) (c ∷ s) = none
unquote_body q (octal (suc zero) v) (c ∷ s) =
    let rest = unquote_body q plain s in
    let b = v * 8 + (c - 48) in if leb 48 c && leb c 55 && ltb b 256 then push b rest else none
unquote_body q (octal (suc (suc n)) v) (c ∷ s) =
    let more = unquote_body q (octal (suc n) (v * 8 + (c - 48))) s in
    if leb 48 c && leb c 55 then more else none

unfoldable pub split_end : Bytes → Option (Bytes × ℕ)
split_end [] = none
split_end (c ∷ []) = some ([], c)
split_end (c ∷ d ∷ s) = elim (split_end (d ∷ s)) [ none ↦ none | some (t, e) ↦ some (c ∷ t, e) ]

unfoldable pub raw_body : Bytes → Option Bytes
raw_body [] = some []
raw_body (c ∷ s) =
    let rest = raw_body s in if c == 96 then none else if c == 13 then rest else push c rest

-- A text in single quotes is one character.
abbrev pub one_byte : Option Bytes → Option Bytes
one_byte (some (c ∷ [])) = some (c ∷ [])
one_byte _ = none

abbrev pub unquote_kind : ℕ → Bytes → Option Bytes
unquote_kind q s =
    if q == 96
    then raw_body s
    else if q == 34
    then unquote_body q plain s
    else if q == 39
    then one_byte (unquote_body q plain s)
    else none

unfoldable pub unquote : Bytes → Option Bytes
unfolding split_end raw_body unquote_body simple_escape
unquote [] = none
unquote (q ∷ s) = elim (split_end s) [
  | none ↦ none
  | some (body, e) ↦ if e == q then unquote_kind q body else none
]
