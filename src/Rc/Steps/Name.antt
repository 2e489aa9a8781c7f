-- ===== src/Rc/Steps/Name.antt =====
-- The host name that the boot gives.
use edgi_os.Base.{
  Bytes, codes, ℕ, [], ◌∷◌, some, same, is_empty, if◌then◌else◌, ◌||◌, ◌≡◌, ◌≢◌, refl, arith,
  bytes_discrete, Bool-cases, inl, inr,
}
use edgi_os.Base.Strings.{trim_space}
use edgi_os.Os.World.{World, hostname_set, emit, pure, file, ok, attempt, ◌>>=◌, ◌>>◌}
use edgi_os.Os.Files.{read_file, follow}
use edgi_os.Os.Process.{sethostname, gethostname}
use edgi_os.Os.Logged.{logged}
use edgi_os.Rc.Calls.{read, trimmed}
use edgi_os.Rc.Steps.{name_by_address, do_hostname, name_from}

abbrev pub Named : World → Type 0
Named w = (w.hostname ≢ []) × (w.hostname ≢ codes "(none)")

-- The name is a proper one, where it has the form that the address gives.
name_by_address-Named :
    (w : World) (mac : Bytes) → w.faults ≡ [] → mac ≢ [] → Named (name_by_address mac w).1
unfolding sethostname ◌>>=◌
name_by_address-Named w [] f n = absurd (n refl)
name_by_address-Named w (c ∷ mac) f n = rw f (ground arith, ground arith)

-- A read that nothing disturbs.
read-quiet :
    (p s : Bytes) (m : ℕ) (w : World)
    → w.faults ≡ []
    → w.files p ≡ some (file m s)
    → read p w ≡ (ok (trim_space s), record w { faults = [] })
unfolding read read_file follow ◌>>=◌
read-quiet p s m w f h = rw f (rw h (rw h refl))

name_from-Named :
    (w : World) (m : ℕ) (mac : Bytes)
    → w.faults ≡ []
    → w.files (codes "/sys/class/net/eth0/address") ≡ some (file m mac)
    → trim_space mac ≢ []
    → Named (name_from (ok w.hostname) w).1
unfolding ◌>>=◌ bytes_discrete
name_from-Named w m mac f h n =
    elim (Bool-cases (same w.hostname (codes "(none)") || is_empty w.hostname)) [
      | inl y ↦ rw y (
          rw (read-quiet _ mac m w f h)
            (name_by_address-Named (record w { faults = [] }) (trim_space mac) refl n))
      | inr y ↦ rw y (ground arith, ground arith)
    ]

-- What follows the name in /etc/hostname.
after_name-Named :
    (w : World) (name : Bytes) (m : ℕ) (mac : Bytes)
    → w.faults ≡ []
    → w.files (codes "/sys/class/net/eth0/address") ≡ some (file m mac)
    → trim_space mac ≢ []
    → Named
        (((if is_empty name then pure tt else logged (sethostname name))
            >> (attempt gethostname >>= name_from))
          w).1
unfolding sethostname gethostname ◌>>=◌
after_name-Named w [] m mac f h n = rw f (name_from-Named (record w { faults = [] }) m mac refl h n)
after_name-Named w (c ∷ name) m mac f h n = rw f (
    name_from-Named (emit (hostname_set (c ∷ name)) (record w { faults = []; hostname = c ∷ name }))
      m mac refl h n)

read_file-quiet :
    (p : Bytes) (w : World) → w.faults ≡ [] → (read_file p w).1 ≡ record w { faults = [] }
unfolding read_file
read_file-quiet p w f = rw f refl

-- Where no call fails and the network card eth0 has an address, the machine has a name after doHostname: one that is
-- neither empty nor the kernel's `(none)`, whatever /etc/hostname holds.
pub do_hostname-Named :
    (w : World) (m : ℕ) (mac : Bytes)
    → w.faults ≡ []
    → w.files (codes "/sys/class/net/eth0/address") ≡ some (file m mac)
    → trim_space mac ≢ []
    → Named (do_hostname w).1
unfolding do_hostname read ◌>>=◌
do_hostname-Named w m mac f h n = rw (read_file-quiet (codes "/etc/hostname") w f) (
    after_name-Named (record w { faults = [] }) (trimmed (read_file (codes "/etc/hostname") w).0) m
      mac refl h n)
