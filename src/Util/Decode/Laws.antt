-- ===== src/Util/Decode/Laws.antt =====
-- What is decoded, for each encoding that is accepted.
use edgi_os.Base.{
  Bytes, codes, ◌≡◌, ◌≢◌, refl, arith, List, [], ◌∷◌, Option, some, All, bytes_discrete,
}
use edgi_os.Os.World.{message, ok, err}
use edgi_os.Util.Base64
use edgi_os.Util.Base64.Laws.{IsByte, decode-encode}
use edgi_os.Util.Decode.{decode_content}

pub data Packing : Type 0 where
  plain base64 gzip gzip_base64 : Packing

-- The encodings that name a packing.
abbrev pub names : Packing → List Bytes
names plain = [] ∷ []
names base64 = codes "b64" ∷ codes "base64" ∷ []
names gzip = codes "gz" ∷ codes "gzip" ∷ []
names gzip_base64 = codes "gz+base64" ∷ codes "gzip+base64" ∷ codes "gz+b64" ∷ codes "gzip+b64" ∷ []

module _ (zip : Bytes → Bytes) (gunzip : Bytes → Option Bytes) where
  abbrev pub pack : Packing → Bytes → Bytes
  pack plain s = s
  pack base64 s = Base64.encode s
  pack gzip s = zip s
  pack gzip_base64 s = Base64.encode (zip s)

  -- With a compression from bytes to bytes that the decompressor undoes: bytes that were packed in one of the
  -- four ways are decoded to what they were, under each name of the packing.
  pub decode_content-pack :
      ((s : Bytes) → All IsByte s → gunzip (zip s) ≡ some s)
      → ((s : Bytes) → All IsByte s → All IsByte (zip s))
      → (k : Packing) (s : Bytes) → All IsByte s
      → All (λ n. decode_content gunzip (pack k s) n ≡ ok s) (names k)
  unfolding decode_content bytes_discrete
  decode_content-pack undo zipped plain s h = (refl, tt)
  decode_content-pack undo zipped base64 s h = rw (decode-encode s h) (refl, (refl, tt))
  decode_content-pack undo zipped gzip s h = rw (undo s h) (refl, (refl, tt))
  decode_content-pack undo zipped gzip_base64 s h =
      rw (decode-encode (zip s) (zipped s h), undo s h) (refl, (refl, (refl, (refl, tt))))

-- An encoding that names no packing is refused, whatever the content.
pub decode_content-unsupported :
    (gunzip : Bytes → Option Bytes) (content encoding : Bytes)
    → ((k : Packing) → All (λ n. encoding ≢ n) (names k))
    → decode_content gunzip content encoding ≡ err (message (codes "unsupported encoding"))
unfolding decode_content
decode_content-unsupported gunzip content encoding other =
    ground (arith, other plain, other base64, other gzip, other gzip_base64)
