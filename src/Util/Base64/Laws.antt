-- ===== src/Util/Base64/Laws.antt =====
-- Decoding what was encoded.
use edgi_os.Base.{
  Bytes, codes, ℕ, ◌+◌, ◌*◌, ◌/◌, ◌%◌, ◌<◌, ◌≢◌, ◌≡◌, refl, arith, [], ◌∷◌, some, All,
}
use edgi_os.Util.Base64.{enc_six, dec_six, encode, decode, decode_quads, skip_breaks, pad}

encode_test : encode (codes "any carnal pleas") ≡ codes "YW55IGNhcm5hbCBwbGVhcw=="
unfolding encode enc_six
encode_test = refl

decode_test : decode (codes "YW55IGNh\ncm5hbCBwbGVhc3U=") ≡ some (codes "any carnal pleasu")
unfolding decode dec_six
decode_test = refl

abbrev pub IsByte : ℕ → Type 0
IsByte c = c < 256

dec_six-enc_six : (n : ℕ) → n < 64 → dec_six (enc_six n) ≡ some n
unfolding dec_six enc_six
dec_six-enc_six n h = ground arith

enc_six-plain : (n : ℕ) → n < 64 → (enc_six n ≢ pad) × (enc_six n ≢ 10) × (enc_six n ≢ 13)
unfolding enc_six
enc_six-plain n h = ground arith

skip_breaks-encode : (s : Bytes) → All IsByte s → skip_breaks (encode s) ≡ encode s
unfolding encode skip_breaks
skip_breaks-encode [] h = refl
skip_breaks-encode (a ∷ []) h = ground (arith, enc_six-plain (a / 4), enc_six-plain (a % 4 * 16))
skip_breaks-encode (a ∷ b ∷ []) h =
    ground (
      arith,
      enc_six-plain (a / 4),
      enc_six-plain (a % 4 * 16 + b / 16),
      enc_six-plain (b % 16 * 4),
    )
skip_breaks-encode (a ∷ b ∷ c ∷ s) h = ground (
  arith,
  enc_six-plain (a / 4),
  enc_six-plain (a % 4 * 16 + b / 16),
  enc_six-plain (b % 16 * 4 + c / 64),
  enc_six-plain (c % 64),
  skip_breaks-encode s,
)

decode_quads-encode : (s : Bytes) → All IsByte s → decode_quads (encode s) ≡ some s
unfolding encode decode_quads
decode_quads-encode [] h = refl
decode_quads-encode (a ∷ []) h =
    ground (arith, dec_six-enc_six (a / 4), dec_six-enc_six (a % 4 * 16))
decode_quads-encode (a ∷ b ∷ []) h = ground (
  arith,
  dec_six-enc_six (a / 4),
  dec_six-enc_six (a % 4 * 16 + b / 16),
  dec_six-enc_six (b % 16 * 4),
  enc_six-plain (b % 16 * 4),
)
decode_quads-encode (a ∷ b ∷ c ∷ s) h = ground (
  arith,
  dec_six-enc_six (a / 4),
  dec_six-enc_six (a % 4 * 16 + b / 16),
  dec_six-enc_six (b % 16 * 4 + c / 64),
  dec_six-enc_six (c % 64),
  enc_six-plain (c % 64),
  decode_quads-encode s,
)

-- Every text of bytes is read back from its encoding.
pub decode-encode : (s : Bytes) → All IsByte s → decode (encode s) ≡ some s
unfolding decode
decode-encode s h = rw (skip_breaks-encode s h) (decode_quads-encode s h)
