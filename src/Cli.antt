-- ===== src/Cli.antt =====
-- pkg/cli/config/config.go, pkg/cli/install/install.go, the command of pkg/cli/rc/rc.go, and main.go: what the commands do when they are run.
pub mod Declared
pub mod Laws
pub mod Initrd
use edgi_os.Base.{
  Bytes, codes, ℕ, ◌==◌, Bool, true, List, [], ◌∷◌, Option, none, some, same, not, ◌&&◌, ◌||◌,
  if◌then◌else◌,
}
use edgi_os.Base.Paths.{base}
use edgi_os.Os.World.{Error, message, Result, ok, err, World, M, pure, raise, lift, ◌>>=◌, ◌>>◌}
use edgi_os.Os.Logged.{logged}
use edgi_os.Os.Process.{print}
use edgi_os.Config.Types.{CloudConfig}
use edgi_os.Config.Write.{Encoder, write_config}
use edgi_os.Cc.Applies.{run_apply, install_apply, boot_apply, init_apply}
use edgi_os.Install.{run_installer}
use edgi_os.Upgrade.{before, upgrade}
use edgi_os.Cli.Declared.{Command, App, Parsed, upgrade_options}
use edgi_os.Rc.Calls
use edgi_os.Rc.Steps.{rc}
use edgi_os.Transfer
use edgi_os.Transfer.{relocate}
use edgi_os.Enter.Host.{Host}
use edgi_os.Enter.Root.{mount_root}

-- The flags of `config`.
pub record Flags : Type 0 where
  pub initrd : Bool
  pub boot : Bool
  pub install : Bool
  pub dump : Bool
  pub dump_json : Bool

-- Before of the commands, for the user
unfoldable pub must_be_root : ℕ → M (Unit {0})
must_be_root uid = if uid == 0 then pure tt else raise (message (codes "must be run as root"))

-- The multierror library's one error of several
module _ (multi : List Error → Error) where
  abbrev pub applied : Option (List Error) × World → Result (Unit {0}) × World
  applied (none, w) = (ok tt, w)
  applied (some es, w) = (err (multi es), w)

  -- gzip, the program's version, and the encoders of the libraries, the last of json
  module _ (gunzip : Bytes → Option Bytes) (version : Bytes) (enc : Encoder)
      (to_json : CloudConfig → Result Bytes) where
    -- What Main does with the configuration: the first flag that is set counts.
    unfoldable pub apply_phase : Flags → CloudConfig → M (Unit {0})
    unfolding run_apply install_apply boot_apply init_apply write_config
    apply_phase flags cfg =
        if flags.initrd
        then (λ w. applied (init_apply gunzip version cfg w))
        else if flags.boot
        then (λ w. applied (boot_apply gunzip version cfg w))
        else if flags.install
        then (λ w. applied (install_apply gunzip version cfg w))
        else if flags.dump
        then write_config enc cfg
        else if flags.dump_json
        then (do s ← lift (to_json cfg); print s)
        else (λ w. applied (run_apply gunzip version cfg w))

    -- Main of `config`
    unfoldable pub config_main : Flags → M CloudConfig → M (Unit {0})
    unfolding apply_phase
    config_main flags read_config = do cfg ← read_config; apply_phase flags cfg

    -- Before and Action of `config`
    unfoldable pub config_command : ℕ → Flags → M CloudConfig → M (Unit {0})
    unfolding config_main must_be_root
    config_command uid flags read_config = do
      must_be_root uid
      logged (config_main flags read_config)

-- Before and Action of `install`
unfoldable pub install_command : Encoder → ℕ → Bytes → M CloudConfig → M (Unit {0})
unfolding run_installer must_be_root
install_command enc uid program read_config = do
  must_be_root uid
  logged (run_installer enc uid program read_config)

-- The destinations of `config`
unfoldable pub config_flags : Parsed → Flags
config_flags p = record {
  initrd = p.flag (codes "initrd");
  boot = p.flag (codes "boot");
  install = p.flag (codes "install");
  dump = p.flag (codes "dump");
  dump_json = p.flag (codes "dump-json");
}

-- The functions that the reexec package runs in place of main, by the name of the program.
pub data Start : Type 0 where
  starts_initrd : Start
  starts_enter : Start
  -- the application, with these arguments
  starts_app : List Bytes → Start

-- The arguments that main gives the application: its name, the name of the program where that is a
-- command, and the others.
unfoldable pub app_args : Bytes → (Bytes → Bool) → Bytes → List Bytes → List Bytes
app_args name is_command program args =
    let path = base program in
    if not (same path name) && is_command path then name ∷ path ∷ args else name ∷ args

-- Before and Action of `rc`
unfoldable pub rc_command : Calls.Kernel → ℕ → M (Unit {0})
unfolding rc must_be_root
rc_command kernel uid = do must_be_root uid; rc kernel

-- initrd, where `verbose` says that the log is at the level of debugging. The result says whether the
-- process was replaced; a process that Relocate replaced does not come to the rest.
unfoldable pub initrd : Transfer.Kernel → Host → Bool → M Bool
unfolding relocate mount_root
initrd kernel host verbose = do
  moved ← relocate kernel
  if moved then pure true else (do
    logged (host.mount [] (codes "/") (codes "none") (codes "rw,remount"))
    mount_root host (codes "edgi.debug") verbose (codes "./edgi/data"))

-- main. `is_command` is Command of the application: that a declared command has this name.
unfoldable pub main : (List Command → Bytes → Bool) → App → Bytes → List Bytes → Start
unfolding app_args
main is_command app program args =
    if same program (codes "/init") || same program (codes "/sbin/init")
    then starts_initrd
    else if same program (codes "enter-root")
    then starts_enter
    else starts_app (app_args app.name (is_command app.commands) program args)

module _ (copy : Bytes → Bytes → M (Unit {0}))
    (remount : Bytes → Bytes → Bytes → Bytes → M (Unit {0})) (flock unlock : Bytes → M (Unit {0}))
    (look_path : Bytes → M Bytes) where
  -- Before and Action of `upgrade`
  unfoldable pub upgrade_command : Parsed → M (Unit {0})
  unfolding before upgrade upgrade_options
  upgrade_command p = do
    chosen ← before (upgrade_options p)
    upgrade copy remount flock unlock look_path chosen
