-- ===== src/Hostname.antt =====
-- pkg/hostname/hostname.go
pub mod Laws
use mathlib.Core.List.{flat_map}
use edgi_os.Base.{Bytes, codes, Bool, List, [], ◌∷◌, ◌++◌, same, is_empty, if◌then◌else◌}
use edgi_os.Base.Strings.{trim_space, fields, scan_lines}
use edgi_os.Os.World.{M, pure, ◌>>=◌, ◌>>◌}
use edgi_os.Os.Files.{read_file, write_file}
use edgi_os.Os.Process.{sethostname, gethostname}
use edgi_os.Config.Types.{CloudConfig}

abbrev pub loopback : Bytes
loopback = codes "127.0.1.1"

abbrev pub names_loopback : List Bytes → Bool
names_loopback [] = Bool.false
names_loopback (f ∷ fs) = same f loopback

-- What the loop writes for a line of /etc/hosts.
unfoldable pub host_line : Bytes → Bytes → Bytes
host_line hostname text =
    let line = trim_space text in
    if names_loopback (fields line) then codes "127.0.1.1 " ++ hostname else line

unfoldable pub hosts_content : Bytes → List Bytes → Bytes
unfolding flat_map host_line
hosts_content hostname = flat_map (λ l. host_line hostname l ++ codes "\n")

-- The scanner's error is not looked at.
unfoldable pub write_hostname : Bytes → M (Unit {0})
write_hostname hostname = if is_empty hostname then pure tt else do
  write_file (codes "/etc/hostname") (hostname ++ codes "\n") 0o644
  hosts ← read_file (codes "/etc/hosts")
  write_file (codes "/etc/hosts") (hosts_content hostname (scan_lines hosts).0) 0o600

unfoldable pub sync_hostname : M (Unit {0})
unfolding write_hostname
sync_hostname = do hostname ← gethostname; write_hostname hostname

unfoldable pub set_hostname : CloudConfig → M (Unit {0})
unfolding sync_hostname
set_hostname c = if is_empty c.hostname then pure tt else do sethostname c.hostname; sync_hostname
