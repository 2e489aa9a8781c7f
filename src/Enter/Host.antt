-- ===== src/Enter/Host.antt =====
-- What the way into the root takes from other projects and from the kernel.
use edgi_os.Base.{Bytes, ℕ, Bool, List}
use edgi_os.Os.World.{Result, M}

pub record Host : Type 0 where
  -- mount.Mounted, mount.Mount and mount.ForceMount of the docker library
  pub mounted : Bytes → M Bool
  pub mount : Bytes → Bytes → Bytes → Bytes → M (Unit {0})
  pub force_mount : Bytes → Bytes → Bytes → Bytes → M (Unit {0})
  -- losetup.Attach, which gives the path of the device, and its Detach
  pub attach : Bytes → ℕ → M Bytes
  pub detach : Bytes → M (Unit {0})
  -- the flags in the GetInfo of a device, its SetInfo with other flags, and losetup.FlagsAutoClear
  pub flags : Bytes → M ℕ
  pub set_flags : Bytes → ℕ → M (Unit {0})
  pub auto_clear : ℕ
  -- unix.Setrlimit of a resource, by its soft and its hard limit
  pub set_limit : ℕ → ℕ → ℕ → M (Unit {0})
  -- ioutil.ReadDir, as the names
  pub read_dir : Bytes → M (List Bytes)
  -- reexec.Self, and what the reads of that file give before its end
  pub self : Bytes
  pub reads : List (Result Bytes)
  -- os.Args, by its first and its others, and os.Getpid
  pub program : Bytes
  pub arguments : List Bytes
  pub pid : ℕ
