-- ===== src/Cc/Applies.antt =====
-- pkg/cc/apply.go and the small appliers of pkg/cc/funcs.go.
pub mod Laws
use edgi_os.Base.{
  Bytes, codes, Bool, true, false, List, [], ◌∷◌, Option, none, some, same, if◌then◌else◌,
}
use edgi_os.Os.World.{Error, Result, ok, err, World, M, pure, ◌>>=◌, ◌>>◌}
use edgi_os.Os.Process.{run}
use edgi_os.Config.Types.{CloudConfig}
use edgi_os.System.{mode}
use edgi_os.Module.{load_modules}
use edgi_os.Sysctl.{configure_sysctl}
use edgi_os.Hostname.{set_hostname}
use edgi_os.Command.{execute_command, set_password}
use edgi_os.WriteFile.{write_files}
use edgi_os.Ssh.{set_authorized_keys}
use edgi_os.Cc.K3s.{apply_k3s_with_restart, apply_k3s_install, apply_k3s_no_restart}
use edgi_os.Cc.Network.{apply_dns, apply_wifi, apply_data_source}
use edgi_os.Cc.Environment.{apply_environment}

abbrev pub Applier : Type 0
Applier = CloudConfig → M (Unit {0})

abbrev pub add_error : Result (Unit {0}) → List Error → List Error
add_error (ok _) errors = errors
add_error (err e) errors = e ∷ errors

-- The errors of the appliers in their order. Each applier runs, whatever came of those before it.
unfoldable pub collect_errors : CloudConfig → List Applier → World → List Error × World
collect_errors cfg [] w = ([], w)
collect_errors cfg (a ∷ appliers) w =
    let (r, w') = a cfg w in
    let (errors, w'') = collect_errors cfg appliers w' in (add_error r errors, w'')

-- No error is `nil`; some are a MultiError that holds them.
abbrev pub multi_error : List Error → Option (List Error)
multi_error [] = none
multi_error (e ∷ es) = some (e ∷ es)

unfoldable pub run_applies : CloudConfig → List Applier → World → Option (List Error) × World
unfolding collect_errors
run_applies cfg appliers w =
    let (errors, w') = collect_errors cfg appliers w in (multi_error errors, w')

unfoldable pub apply_modules : Applier
apply_modules cfg = load_modules cfg

unfoldable pub apply_sysctls : Applier
apply_sysctls cfg = configure_sysctl cfg

unfoldable pub apply_hostname : Applier
apply_hostname cfg = set_hostname cfg

unfoldable pub apply_password : Applier
apply_password cfg = set_password cfg.edgi.password

unfoldable pub apply_runcmd : Applier
apply_runcmd cfg = execute_command cfg.runcmd

unfoldable pub apply_bootcmd : Applier
apply_bootcmd cfg = execute_command cfg.bootcmd

unfoldable pub apply_initcmd : Applier
apply_initcmd cfg = execute_command cfg.initcmd

unfoldable pub apply_ssh_keys : Applier
apply_ssh_keys cfg = set_authorized_keys cfg false

unfoldable pub apply_ssh_keys_with_net : Applier
apply_ssh_keys_with_net cfg = set_authorized_keys cfg true

unfoldable pub apply_install : Applier
apply_install cfg = do
  m ← mode []
  if same m (codes "install")
      then (do run (codes "edgi") (codes "install" ∷ []) [] []; pure tt)
      else pure tt

module _ (gunzip : Bytes → Option Bytes) (version : Bytes) where
  unfoldable pub apply_write_files : Applier
  apply_write_files cfg = do write_files gunzip cfg; pure tt

  abbrev pub run_appliers : List Applier
  run_appliers =
      apply_modules
      ∷ apply_sysctls
      ∷ apply_hostname
      ∷ apply_dns
      ∷ apply_wifi
      ∷ apply_password
      ∷ apply_ssh_keys_with_net
      ∷ apply_write_files
      ∷ apply_environment
      ∷ apply_runcmd
      ∷ apply_install
      ∷ apply_k3s_install version
      ∷ []

  abbrev pub install_appliers : List Applier
  install_appliers = apply_k3s_with_restart version ∷ []

  abbrev pub boot_appliers : List Applier
  boot_appliers =
      apply_data_source
      ∷ apply_modules
      ∷ apply_sysctls
      ∷ apply_hostname
      ∷ apply_dns
      ∷ apply_wifi
      ∷ apply_password
      ∷ apply_ssh_keys
      ∷ apply_k3s_no_restart version
      ∷ apply_write_files
      ∷ apply_environment
      ∷ apply_bootcmd
      ∷ []

  abbrev pub init_appliers : List Applier
  init_appliers =
      apply_modules ∷ apply_sysctls ∷ apply_hostname ∷ apply_write_files ∷ apply_environment
      ∷ apply_initcmd ∷ []

  unfoldable pub run_apply : CloudConfig → World → Option (List Error) × World
  unfolding run_applies
  run_apply cfg = run_applies cfg run_appliers

  unfoldable pub install_apply : CloudConfig → World → Option (List Error) × World
  unfolding run_applies
  install_apply cfg = run_applies cfg install_appliers

  unfoldable pub boot_apply : CloudConfig → World → Option (List Error) × World
  unfolding run_applies
  boot_apply cfg = run_applies cfg boot_appliers

  unfoldable pub init_apply : CloudConfig → World → Option (List Error) × World
  unfolding run_applies
  init_apply cfg = run_applies cfg init_appliers
