-- ===== src/Config/Sources/Laws.antt =====
-- What is decoded from the file that is made of a script.
use edgi_os.Base.{Bytes, codes, [], Option, some, ◌≡◌, refl, arith, All, bytes_discrete}
use edgi_os.Os.World.{ok}
use edgi_os.Config.Types.{File}
use edgi_os.Config.Sources.{user_script}
use edgi_os.Util.Base64
use edgi_os.Util.Base64.Laws.{IsByte, decode-encode}
use edgi_os.Util.Decode.{decode_content}

binary-decodes :
    (gunzip : Bytes → Option Bytes) (s : Bytes)
    → All IsByte s
    → decode_content gunzip (Base64.encode s) (codes "b64") ≡ ok s
unfolding decode_content bytes_discrete
binary-decodes gunzip s h = rw (decode-encode s h) refl

text-decodes : (gunzip : Bytes → Option Bytes) (s : Bytes) → decode_content gunzip s [] ≡ ok s
unfolding decode_content bytes_discrete
text-decodes gunzip s = refl

-- User data that is taken for a script, binary or text: the content of the file that is made of it
-- is decoded, by the encoding that the file names, to the user data.
pub user_script-decodes :
    (gunzip : Bytes → Option Bytes) (data_bytes : Bytes) (f : File)
    → All IsByte data_bytes
    → user_script data_bytes ≡ some f
    → decode_content gunzip f.content f.encoding ≡ ok data_bytes
unfolding user_script
user_script-decodes gunzip s f h e =
    ground (arith, binary-decodes gunzip s h, text-decodes gunzip s)
