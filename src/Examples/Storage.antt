-- ===== src/Examples/Storage.antt =====
-- Files written, downloaded and decoded.
use edgi_os.Base.{
  Bytes, codes, ℕ, [], ◌∷◌, none, some, ◌≡◌, ◌≢◌, refl, ap, length, All, arith, has_prefix,
  bytes_discrete,
}
use edgi_os.Os.World.{ok, file, directory, World}
use edgi_os.Config.Types.{File}
use edgi_os.Base.Paths.{split_path}
use edgi_os.Os.Tree.{fresh_between, around_star, join_path}
use edgi_os.Util.Atomic.{write_file_atomic}
use edgi_os.Util.Atomic.Laws.{
  before_drawn, behind_drawn, write_file_atomic-Replaced, write_file_atomic-others,
}
use edgi_os.Util.Atomic.Laws as Atomic
use edgi_os.Util.Base64
use edgi_os.Util.Base64.Laws.{decode-encode}
use edgi_os.Util.Decode.{decode_content}
use edgi_os.Util.Decode.Laws.{Packing, plain, base64, gzip, gzip_base64, decode_content-pack, names}
use edgi_os.Util.Calls.{http_download_to_file}
use edgi_os.Util.Calls.Laws.{http_download_to_file-Downloaded}
use edgi_os.WriteFile.{finish_file}
use edgi_os.WriteFile.Laws.{Replaced, finish_file-Replaced}
use edgi_os.Config.Sources.{script_file, user_script}
use edgi_os.Config.Sources.Laws.{user_script-decodes}
use edgi_os.Examples.{machine}

write_file_atomic-Replaced_example :
    let (r, w') = write_file_atomic (codes "/etc/hosts") (codes "new") 0o600 machine in
    Atomic.Replaced
      (codes "/etc/hosts")
      (codes "new")
      0o600
      (machine.files (codes "/etc/hosts"))
      r
      w'
write_file_atomic-Replaced_example =
    write_file_atomic-Replaced (codes "/etc/hosts") (codes "new") 0o600 machine

hostname-standing : machine.files (codes "/etc/hostname") ≢ none
unfolding bytes_discrete
hostname-standing e = cc

write_file_atomic-others_example :
    (write_file_atomic (codes "/etc/hosts") (codes "new") 0o600 machine).1.files
      (codes "/etc/hostname")
    ≡ machine.files (codes "/etc/hostname")
write_file_atomic-others_example =
    write_file_atomic-others (codes "/etc/hosts") (codes "new") (codes "/etc/hostname") 0o600
      machine (λ e. omega (arith, ap length e)) hostname-standing

-- The server does not have the file.
abbrev missing : World
missing = record machine {
  responses = ok (record { status = 404; body = codes "Not Found" }) ∷ [];
  random = codes "1" ∷ [];
}

hosts-plain : (k : ℕ) → missing.files (codes "/etc/hosts") ≢ some (directory k)
unfolding bytes_discrete
hosts-plain k e = cc

drawn :
    fresh_between missing.files
      (before_drawn (codes "/etc/hosts"))
      (behind_drawn (codes "/etc/hosts"))
      missing.random
    ≡ some (codes "1", [])
unfolding fresh_between around_star split_path join_path bytes_discrete
drawn = refl

http_download_to_file-Downloaded_example :
    let (r, w') = http_download_to_file (codes "http://x/k3s") (codes "/etc/hosts") missing in
    (r ≡ ok tt) × (w'.files (codes "/etc/hosts") ≡ some (file 0o644 (codes "Not Found")))
http_download_to_file-Downloaded_example =
    http_download_to_file-Downloaded (codes "http://x/k3s") (codes "/etc/hosts") (codes "1") []
      (record { status = 404; body = codes "Not Found" }) [] missing refl refl hosts-plain drawn

decode-encode_example : Base64.decode (Base64.encode (codes "edgi")) ≡ some (codes "edgi")
decode-encode_example = decode-encode (codes "edgi") (ground arith)

abbrev script : Bytes
script = codes "#!/bin/sh\n"

user_script-decodes_example :
    decode_content (λ s. some s) (script_file script []).content (script_file script []).encoding
    ≡ ok script
unfolding user_script has_prefix
user_script-decodes_example =
    user_script-decodes (λ s. some s) script (script_file script []) (ground arith) refl

abbrev settings : File
settings = record {
  encoding = [];
  content = codes "a=1\n";
  owner = codes "root";
  path = codes "/etc/settings";
  raw_file_permissions = codes "0600";
}

finish_file-Replaced_example :
    let (r, w') =
      finish_file settings (codes "/etc/settings") 0o4600 (codes "/tmp/wfs-temp1") machine in
    Replaced (codes "/etc/settings") (codes "a=1\n") 0o600 none r w'
unfolding bytes_discrete
finish_file-Replaced_example =
    finish_file-Replaced settings (codes "/etc/settings") (codes "/tmp/wfs-temp1") 0o4600 0o600
      machine (omega arith) tt (λ e. omega (arith, ap length e)) refl

bzip2-other : (k : Packing) → All (λ n. codes "bzip2" ≢ n) (names k)
bzip2-other plain = (λ e. omega (arith, ap length e), tt)
bzip2-other base64 = (λ e. omega (arith, ap length e), (λ e. omega (arith, ap length e), tt))
bzip2-other gzip = (λ e. omega (arith, ap length e), (λ e. omega (arith, ap length e), tt))
bzip2-other gzip_base64 = (
  λ e. omega (arith, ap length e),
  (
    λ e. omega (arith, ap length e),
    (λ e. omega (arith, ap length e), (λ e. omega (arith, ap length e), tt)),
  ),
)

decode_content-pack_example :
    All
      (λ n. decode_content (λ s. some s) (Base64.encode (codes "k")) n ≡ ok (codes "k"))
      (names gzip_base64)
decode_content-pack_example =
    decode_content-pack (λ s. s) (λ s. some s) (λ s h. refl) (λ s h. h) gzip_base64 (codes "k")
      (omega arith, tt)
