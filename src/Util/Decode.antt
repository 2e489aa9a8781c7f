-- ===== src/Util/Decode.antt =====
-- pkg/util/decode.go. The decompressor of compress/gzip is a parameter.
pub mod Laws
use edgi_os.Base.{
  Bytes, [], codes, Bool, true, false, ◌||◌, Option, none, some, same, if◌then◌else◌,
}
use edgi_os.Os.World.{Error, message, Result, ok, err}
use edgi_os.Util.Base64

abbrev pub or_error : Option Bytes → Bytes → Result Bytes
or_error none e = err (message e)
or_error (some s) e = ok s

unfoldable pub decode_base64_content : Bytes → Result Bytes
decode_base64_content content = or_error (Base64.decode content) (codes "unable to decode base64")

abbrev pub is_base64 : Bytes → Bool
is_base64 encoding = same encoding (codes "b64") || same encoding (codes "base64")

abbrev pub is_gzip : Bytes → Bool
is_gzip encoding = same encoding (codes "gz") || same encoding (codes "gzip")

abbrev pub is_gzip_base64 : Bytes → Bool
is_gzip_base64 encoding =
    same encoding (codes "gz+base64")
    || same encoding (codes "gzip+base64")
    || same encoding (codes "gz+b64")
    || same encoding (codes "gzip+b64")

module _ (gunzip : Bytes → Option Bytes) where
  unfoldable pub decompress_gzip : Bytes → Result Bytes
  decompress_gzip content = or_error (gunzip content) (codes "unable to decode gzip")

  unfoldable pub decode_gzip_content : Bytes → Result Bytes
  unfolding decompress_gzip
  decode_gzip_content content = decompress_gzip content

  abbrev pub decode_both : Result Bytes → Result Bytes
  decode_both (ok gz) = decode_gzip_content gz
  decode_both (err e) = err e

  unfoldable pub decode_content : Bytes → Bytes → Result Bytes
  unfolding decode_gzip_content decode_base64_content
  decode_content content encoding =
      if same encoding []
      then ok content
      else if is_base64 encoding
      then decode_base64_content content
      else if is_gzip encoding
      then decode_gzip_content content
      else if is_gzip_base64 encoding
      then decode_both (decode_base64_content content)
      else err (message (codes "unsupported encoding"))
