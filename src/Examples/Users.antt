-- ===== src/Examples/Users.antt =====
-- Users, keys and passwords.
use Prim.Native.Nat.{bit_and}
use edgi_os.Base.{
  Bytes, codes, ℕ, [], ◌∷◌, ◌++◌, Option, none, some, inl, same, ◌≡◌, ◌≢◌, refl, length, All, arith,
  bytes_discrete, if◌then◌else◌,
}
use edgi_os.Base.Strings.{plus, scan_lines}
use edgi_os.Os.World.{ok, err, file, not_exist, errno, eof, Outcome, ran, fetched, World}
use edgi_os.Os.Files.{stat, follow}
use edgi_os.Ssh.Keys.{append_key, get_retry}
use edgi_os.Ssh.Keys.Laws.{append_key-atomic, Added, KeyFile, get_retry-first, retries}
use edgi_os.Util.Password.{mask_password, too_long}
use edgi_os.Util.Password.Laws.{edit, line, IsKey, mask_password-enter, mask_password-too_long}
use edgi_os.Ask.Login.{shadow, hash_password}
use edgi_os.Ask.Login.Laws.{learned, FirstEntry, hash_password-restores}
use edgi_os.Examples.{machine, config}

abbrev key_file : Bytes
key_file = codes "/home/edgi/keys"

abbrev one : Bytes
one = codes "ssh-rsa one\n"

keys-standing : machine.files key_file ≡ some (file 0o600 one)
unfolding bytes_discrete
keys-standing = refl

keys-found : (stat key_file machine).0 ≢ err not_exist
unfolding stat follow bytes_discrete
keys-found e = cc

append_key-atomic_example :
    let (r, w') = append_key (codes "ssh-rsa two") key_file (plus 1000) (plus 1000) machine in
    (new : Bytes) × Added one (codes "ssh-rsa two") new
    × KeyFile key_file one 0o600 (bit_and 0o600 0o777) new r w'
append_key-atomic_example =
    append_key-atomic (codes "ssh-rsa two") key_file one 0o600 (plus 1000) (plus 1000) machine
      keys-standing keys-found

abbrev answering : World
answering = record machine {
  responses = err (errno 101) ∷ ok (record { status = 200; body = one }) ∷ [];
}

get_retry-first_example :
    ((get_retry 10 (codes "http://x") eof answering).0 ≡ ok (record { status = 200; body = one }))
    × ((get_retry 10 (codes "http://x") eof answering).1.responses ≡ [])
    × ((get_retry 10 (codes "http://x") eof answering).1.trace
        ≡ [] ++ (retries 1 (codes "http://x") ++ fetched (codes "http://x") ∷ []))
get_retry-first_example =
    get_retry-first 10 (errno 101 ∷ []) (record { status = 200; body = one }) [] (codes "http://x")
      eof answering refl (refl, tt) (omega arith)

abbrev passwd : Bytes
passwd = codes "root:x:0:0:r:/root:/bin/sh\nedgi:x:1000:1000:e:/home/edgi:/bin/sh\n"

-- `ab`, an erase, `c`
abbrev typing : Bytes
typing = b'a' ∷ b'b' ∷ 127 ∷ b'c' ∷ []

typing-keys : All IsKey typing
typing-keys = (
  (λ e. omega arith, λ e. omega arith, λ e. omega arith),
  (
    (λ e. omega arith, λ e. omega arith, λ e. omega arith),
    (
      (λ e. omega arith, λ e. omega arith, λ e. omega arith),
      ((λ e. omega arith, λ e. omega arith, λ e. omega arith), tt),
    ),
  ),
)

mask_password-enter_example :
    line (mask_password (typing ++ 13 ∷ codes "rest")) ≡ (edit [] typing, ok tt, codes "rest")
mask_password-enter_example =
    mask_password-enter typing (codes "rest") 13 typing-keys (omega arith) (inl refl)

abbrev repeated : ℕ → Bytes
repeated ℕ.zero = []
repeated (ℕ.suc n) = b'a' ∷ repeated n

repeated-keys : (n : ℕ) → All IsKey (repeated n)
repeated-keys ℕ.zero = tt
repeated-keys (ℕ.suc n) = ((λ e. omega arith, λ e. omega arith, λ e. omega arith), repeated-keys n)

length-repeated : (n : ℕ) → length (repeated n) ≡ n
length-repeated ℕ.zero = refl
length-repeated (ℕ.suc n) = omega (arith, length-repeated n)

mask_password-too_long_example :
    line (mask_password (repeated 513 ++ codes "rest"))
    ≡ (edit [] (repeated 513), err too_long, codes "rest")
mask_password-too_long_example =
    mask_password-too_long (repeated 513) (codes "rest") (repeated-keys 513) (length-repeated 513)

-- chpasswd replaces the file of passwords.
abbrev chpasswd : Outcome
chpasswd = record {
  failure = none;
  output = [];
  effect = λ fs p. if same p shadow then some (file 0o640 (codes "edgi:new:\n")) else fs p;
}

abbrev changing : World
changing = record machine { outcomes = chpasswd ∷ [] }

hash_password-restores_example :
    let (r, w') = hash_password config (codes "secret") changing in
    ((o : Option Bytes) × FirstEntry (scan_lines (codes "edgi:new:\n")).0 o
      × (r ≡ learned config none o (scan_lines (codes "edgi:new:\n")).1))
    × (w'.files shadow ≡ some (file 0o640 (codes "root:x:\nedgi:h:\n")))
    × (w'.trace ≡ [] ++ ran (codes "chpasswd") [] (codes "edgi:" ++ codes "secret") [] ∷ [])
unfolding bytes_discrete
hash_password-restores_example =
    hash_password-restores config (codes "secret") (codes "root:x:\nedgi:h:\n")
      (codes "edgi:new:\n") 0o640 0o640 chpasswd [] changing refl refl refl refl
