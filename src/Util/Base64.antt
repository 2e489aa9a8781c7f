-- ===== src/Util/Base64.antt =====
-- encoding/base64's StdEncoding, as pkg/util/decode.go and pkg/config/read_cc.go use it.
pub mod Laws
use edgi_os.Base.{
  Bytes, ℕ, ◌+◌, ◌-◌, ◌*◌, ◌/◌, ◌%◌, Bool, true, false, ◌&&◌, ◌||◌, List, [], ◌∷◌, Option, none,
  some, leb, ltb, ◌==◌, if◌then◌else◌,
}

-- The character for six bits.
unfoldable pub enc_six : ℕ → ℕ
enc_six n =
    if ltb n 26
    then n + 65
    else if ltb n 52
    then n + 71
    else if ltb n 62
    then n - 4
    else if n == 62
    then 43
    else 47

abbrev pub pad : ℕ
pad = 61

unfoldable pub encode : Bytes → Bytes
encode [] = []
encode (a ∷ []) = enc_six (a / 4) ∷ enc_six (a % 4 * 16) ∷ pad ∷ pad ∷ []
encode (a ∷ b ∷ []) =
    enc_six (a / 4) ∷ enc_six (a % 4 * 16 + b / 16) ∷ enc_six (b % 16 * 4) ∷ pad ∷ []
encode (a ∷ b ∷ c ∷ s) =
    enc_six (a / 4)
    ∷ enc_six (a % 4 * 16 + b / 16)
    ∷ enc_six (b % 16 * 4 + c / 64)
    ∷ enc_six (c % 64)
    ∷ encode s

unfoldable pub dec_six : ℕ → Option ℕ
dec_six c =
    if leb 65 c && leb c 90
    then some (c - 65)
    else if leb 97 c && leb c 122
    then some (c - 71)
    else if leb 48 c && leb c 57
    then some (c + 4)
    else if c == 43
    then some 62
    else if c == 47
    then some 63
    else none

-- The decoder skips line breaks wherever they stand.
unfoldable pub skip_breaks : Bytes → Bytes
skip_breaks [] = []
skip_breaks (c ∷ s) = let rest = skip_breaks s in if c == 10 || c == 13 then rest else c ∷ rest

abbrev pub three_bytes : ℕ → ℕ → ℕ → ℕ → Option Bytes → Option Bytes
three_bytes i j k l none = none
three_bytes i j k l (some s) =
    some ((i * 4 + j / 16) ∷ (j % 16 * 16 + k / 4) ∷ (k % 4 * 64 + l) ∷ s)

abbrev pub last_quad : Option ℕ → Option ℕ → Option ℕ → Option Bytes
last_quad (some i) (some j) none = some ((i * 4 + j / 16) ∷ [])
last_quad (some i) (some j) (some k) = some ((i * 4 + j / 16) ∷ (j % 16 * 16 + k / 4) ∷ [])
last_quad _ _ _ = none

abbrev pub full_quad : Option ℕ → Option ℕ → Option ℕ → Option ℕ → Option Bytes → Option Bytes
full_quad (some i) (some j) (some k) (some l) rest = three_bytes i j k l rest
full_quad _ _ _ _ rest = none

-- What stands in a quad that ends in a pad: the text ends with it.
abbrev pub padded_quad : ℕ → ℕ → ℕ → Bytes → Option Bytes
padded_quad a b c [] =
    if c == pad
    then last_quad (dec_six a) (dec_six b) none
    else elim (dec_six c) [ none ↦ none | some k ↦ last_quad (dec_six a) (dec_six b) (some k) ]
padded_quad a b c (d ∷ s) = none

unfoldable pub decode_quads : Bytes → Option Bytes
decode_quads [] = some []
decode_quads (a ∷ []) = none
decode_quads (a ∷ b ∷ []) = none
decode_quads (a ∷ b ∷ c ∷ []) = none
decode_quads (a ∷ b ∷ c ∷ d ∷ s) =
    let rest = decode_quads s in
    if d == pad
    then padded_quad a b c s
    else full_quad (dec_six a) (dec_six b) (dec_six c) (dec_six d) rest

unfoldable pub decode : Bytes → Option Bytes
unfolding decode_quads skip_breaks
decode s = decode_quads (skip_breaks s)
