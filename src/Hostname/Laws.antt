-- ===== src/Hostname/Laws.antt =====
-- What setting the host name leaves in the files.
use edgi_os.Base.{
  Bytes, codes, ℕ, List, [], ◌∷◌, ◌++◌, some, ◌≡◌, ◌≢◌, ◌⊎◌, inl, inr, refl, map, arith,
  bytes_discrete, same, Bool-cases, append_assoc,
}
use mathlib.Core.List.{flat_map}
use edgi_os.Base.Strings.{scan_lines, fields, trim_space}
use edgi_os.Os.World.{ok, file, World, hostname_set, ◌>>=◌}
use edgi_os.Os.Files.{read_file, write_file, follow}
use edgi_os.Os.Process.{sethostname, gethostname}
use edgi_os.Config.Types.{CloudConfig}
use edgi_os.Hostname.{host_line, hosts_content, write_hostname, sync_hostname, set_hostname}

-- A line of /etc/hosts and the line that takes its place: one whose first field is 127.0.1.1 names the
-- host now, and any other loses the white space around it.
pub HostLine : Bytes → Bytes → Bytes → Type 0
HostLine name old new =
    ((more : List Bytes) × (fields (trim_space old) ≡ codes "127.0.1.1" ∷ more)
      × (new ≡ codes "127.0.1.1 " ++ name))
    ⊎ (((more : List Bytes) → fields (trim_space old) ≢ codes "127.0.1.1" ∷ more)
        × (new ≡ trim_space old))

pub HostLines : Bytes → List Bytes → List Bytes → Type 0
HostLines name [] news = news ≡ []
HostLines name (old ∷ olds) news =
    (new : Bytes) × (rest : List Bytes) × (news ≡ new ∷ rest)
    × HostLine name old new
    × HostLines name olds rest

-- The text of these lines, each with its newline.
pub text_of : List Bytes → Bytes
text_of [] = []
text_of (l ∷ ls) = l ++ (codes "\n" ++ text_of ls)

host_line-by :
    (name old : Bytes) (fs : List Bytes)
    → fields (trim_space old) ≡ fs
    → HostLine name old (host_line name old)
unfolding HostLine host_line bytes_discrete
host_line-by name old [] e = inr (λ more h. cc, rw e refl)
host_line-by name old (f ∷ fs) e = elim (Bool-cases (same f (codes "127.0.1.1"))) [
  | inl y ↦
      let named : f ≡ codes "127.0.1.1" = ground arith in
      inl (fs, rw e (rw named refl), rw e (rw y refl))
  | inr n ↦ inr (λ more h. ground arith, rw e (rw n refl))
]

hosts_content-HostLines :
    (name : Bytes) (olds : List Bytes)
    → HostLines name olds (map (host_line name) olds)
      × (hosts_content name olds ≡ text_of (map (host_line name) olds))
unfolding HostLines hosts_content text_of flat_map
hosts_content-HostLines name [] = (refl, refl)
hosts_content-HostLines name (old ∷ olds) =
    let (lines, text) = hosts_content-HostLines name olds in
    (
      (host_line name old, map (host_line name) olds, refl, host_line-by name old _ refl, lines),
      rw text (append_assoc (host_line name old) (codes "\n") _),
    )

set_hostname-content :
    (c : CloudConfig) (m k : ℕ) (hosts old : Bytes) (w : World)
    → c.hostname ≢ []
    → w.faults ≡ []
    → w.files (codes "/etc/hosts") ≡ some (file m hosts)
    → w.files (codes "/etc/hostname") ≡ some (file k old)
    → let (r, w') = set_hostname c w in
      (r ≡ ok tt)
      × (w'.hostname ≡ c.hostname)
      × (w'.trace ≡ w.trace ++ hostname_set c.hostname ∷ [])
      × (w'.files (codes "/etc/hostname") ≡ some (file k (c.hostname ++ codes "\n")))
      × (w'.files (codes "/etc/hosts")
          ≡ some (file m (hosts_content c.hostname (scan_lines hosts).0)))
unfolding set_hostname sync_hostname write_hostname sethostname gethostname write_file read_file
    follow ◌>>=◌ bytes_discrete
set_hostname-content c m k hosts old w n f h g = ground arith

-- Where no call fails and both files exist: the kernel has the configured name, /etc/hostname holds
-- it, and both files keep their permissions. In /etc/hosts every line that the scanner finds and whose
-- first field is 127.0.1.1 is `127.0.1.1` and the name, and the others keep their text and their order,
-- less the white space around them.
pub set_hostname-files :
    (c : CloudConfig) (m k : ℕ) (hosts old : Bytes) (w : World)
    → c.hostname ≢ []
    → w.faults ≡ []
    → w.files (codes "/etc/hosts") ≡ some (file m hosts)
    → w.files (codes "/etc/hostname") ≡ some (file k old)
    → let (r, w') = set_hostname c w in
      (r ≡ ok tt)
      × (w'.hostname ≡ c.hostname)
      × (w'.trace ≡ w.trace ++ hostname_set c.hostname ∷ [])
      × (w'.files (codes "/etc/hostname") ≡ some (file k (c.hostname ++ codes "\n")))
      × ((lines : List Bytes) × HostLines c.hostname (scan_lines hosts).0 lines
          × (w'.files (codes "/etc/hosts") ≡ some (file m (text_of lines))))
set_hostname-files c m k hosts old w n f h g =
    let (r, name, trace, own, all) = set_hostname-content c m k hosts old w n f h g in
    let (lines, text) = hosts_content-HostLines c.hostname (scan_lines hosts).0 in
    (r, name, trace, own, (_, lines, rw text at all))
