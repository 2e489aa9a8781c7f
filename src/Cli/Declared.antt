-- ===== src/Cli/Declared.antt =====
-- What the command line declares: pkg/cli/app/app.go and the functions Command of pkg/cli/config,
-- pkg/cli/install, pkg/cli/rc and pkg/cli/upgrade. The urfave/cli library parses it; what it leaves in the
-- destinations of the flags is given to the commands.
use edgi_os.Base.{
  Bytes, codes, Bool, true, false, List, [], ◌∷◌, Option, none, some, same, if◌then◌else◌,
}
use edgi_os.Os.World.{Result, ok, err, M, pure, attempt, ◌>>=◌}
use edgi_os.System.{mode, root_path, state_path}
use edgi_os.Upgrade.{Options}

-- cli.BoolFlag where there is no default, and cli.StringFlag. An empty `env_var` is none.
pub record Flag : Type 0 where
  pub name : Bytes
  pub usage : Bytes
  pub env_var : Bytes
  pub default : Option Bytes
  pub required : Bool
  pub hidden : Bool

-- cli.Command less what is run
pub record Command : Type 0 where
  pub name : Bytes
  pub short_name : Bytes
  pub usage : Bytes
  pub flags : List Flag
  pub hidden : Bool

-- cli.App
pub record App : Type 0 where
  pub name : Bytes
  pub usage : Bytes
  pub version : Bytes
  pub flags : List Flag
  pub commands : List Command

abbrev bool_flag : Bytes → Bytes → Bytes → Bool → Flag
bool_flag name usage env_var hidden = record {
  name = name;
  usage = usage;
  env_var = env_var;
  default = none;
  required = false;
  hidden = hidden;
}

abbrev text_flag : Bytes → Bytes → Bytes → Bool → Bool → Flag
text_flag name env_var value required hidden = record {
  name = name;
  usage = [];
  env_var = env_var;
  default = some value;
  required = required;
  hidden = hidden;
}

unfoldable pub config_declared : Command
config_declared = record {
  name = codes "config";
  short_name = codes "cfg";
  usage = codes "configure EDGI";
  flags =
      bool_flag (codes "initrd") (codes "Run initrd stage") [] false
      ∷ bool_flag (codes "boot") (codes "Run boot stage") [] false
      ∷ bool_flag (codes "install") (codes "Run install stage") [] false
      ∷ bool_flag (codes "dump") (codes "Print current configuration") [] false
      ∷ bool_flag (codes "dump-json") (codes "Print current configuration in json") [] false
      ∷ [];
  hidden = false;
}

unfoldable pub rc_declared : Command
rc_declared = record {
  name = codes "rc";
  short_name = [];
  usage = codes "early phase \"run commands\" / \"run control\"";
  flags = [];
  hidden = false;
}

abbrev pub known_mode : Result Bytes → Bytes
known_mode (ok m) = m
known_mode (err e) = []

-- The installer is not listed on a system that is installed; a mode that cannot be read counts as
-- none.
unfoldable pub install_declared : M Command
install_declared = do
  r ← attempt (mode [])
  pure (record {
    name = codes "install";
    short_name = [];
    usage = codes "install EDGI";
    flags = [];
    hidden = same (known_mode r) (codes "local");
  })

unfoldable pub upgrade_declared : Command
upgrade_declared = record {
  name = codes "upgrade";
  short_name = [];
  usage = codes "perform upgrades";
  flags =
      bool_flag (codes "edgi") [] (codes "EDGI_UPGRADE_EDGI") true
      ∷ bool_flag (codes "k3s") [] (codes "EDGI_UPGRADE_K3S") true
      ∷ bool_flag (codes "kernel") (codes "upgrade the kernel") (codes "EDGI_UPGRADE_KERNEL") false
      ∷ bool_flag (codes "rootfs") (codes "upgrade edgi+k3s") (codes "EDGI_UPGRADE_ROOTFS") false
      ∷ bool_flag (codes "remount") (codes "pre-upgrade remount?") (codes "EDGI_UPGRADE_REMOUNT")
          false
      ∷ bool_flag (codes "sync") (codes "post-upgrade sync?") (codes "EDGI_UPGRADE_SYNC") false
      ∷ bool_flag (codes "reboot") (codes "post-upgrade reboot?") (codes "EDGI_UPGRADE_REBOOT")
          false
      ∷ text_flag (codes "source") (codes "EDGI_UPGRADE_SOURCE") (root_path []) true false
      ∷ text_flag (codes "destination") (codes "EDGI_UPGRADE_DESTINATION") (root_path []) true false
      ∷ text_flag (codes "lock-file") (codes "EDGI_UPGRADE_LOCK_FILE")
          (state_path (codes "upgrade.lock" ∷ [])) false true
      ∷ [];
  hidden = false;
}

-- New
unfoldable pub new_app : Bytes → M App
unfolding install_declared
new_app version = do
  install ← install_declared
  pure (record {
    name = codes "edgi";
    usage = codes "Booting to EDGI so you don't have to";
    version = version;
    flags = bool_flag (codes "debug") (codes "Turn on debug logs") (codes "EDGI_DEBUG") false ∷ [];
    commands = rc_declared ∷ config_declared ∷ install ∷ upgrade_declared ∷ [];
  })

-- What the library leaves in the destination of a flag, by the flag's name.
pub record Parsed : Type 0 where
  pub flag : Bytes → Bool
  pub text : Bytes → Bytes

-- The destinations of `upgrade`
unfoldable pub upgrade_options : Parsed → Options
upgrade_options p = record {
  edgi = p.flag (codes "edgi");
  k3s = p.flag (codes "k3s");
  kernel = p.flag (codes "kernel");
  rootfs = p.flag (codes "rootfs");
  remount = p.flag (codes "remount");
  sync = p.flag (codes "sync");
  reboot = p.flag (codes "reboot");
  source = p.text (codes "source");
  destination = p.text (codes "destination");
  lock_file = p.text (codes "lock-file");
}

-- Before of the application: whether the log is at the level of debugging
unfoldable pub debug_level : Parsed → Bool → Bool
debug_level p verbose = if p.flag (codes "debug") then true else verbose
