-- ===== src/Sysctl.antt =====
-- pkg/sysctl/sysctl.go
pub mod Laws
use edgi_os.Base.{Bytes, codes, List, ◌∷◌}
use edgi_os.Base.Strings.{split}
use edgi_os.Base.Paths.{path_join}
use edgi_os.Os.World.{M, for_each}
use edgi_os.Os.Files.{write_file}
use edgi_os.Config.Types.{CloudConfig}

unfoldable pub sysctl_path : Bytes → Bytes
sysctl_path k = path_join (codes "/proc" ∷ codes "sys" ∷ split k b'.')

unfoldable pub configure_sysctl : CloudConfig → M (Unit {0})
unfolding sysctl_path
configure_sysctl cfg = for_each cfg.edgi.sysctls (λ (k, v). write_file (sysctl_path k) v 0o644)
