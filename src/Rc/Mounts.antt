-- ===== src/Rc/Mounts.antt =====
-- doMounts of pkg/cli/rc/rc.go, by the parts that its comments mark.
use Prim.Native.Nat.{bit_or}
use edgi_os.Base.{Bytes, codes, ℕ, [], ◌∷◌}
use edgi_os.Base.Paths.{path_join}
use edgi_os.Os.World.{M, ◌>>=◌, ◌>>◌, for_each}
use edgi_os.Rc.Calls.{Kernel, mkdir, mount, mount_silent, symlink, mkchar, cgroup_list, write}

-- MS_NODEV, MS_NOEXEC, MS_NOSUID, MS_REC, MS_RELATIME, MS_SHARED
abbrev pub nodev : ℕ
nodev = 0x4

abbrev pub noexec : ℕ
noexec = 0x8

abbrev pub nosuid : ℕ
nosuid = 0x2

abbrev pub rec : ℕ
rec = 0x4000

abbrev pub relatime : ℕ
relatime = 0x200000

abbrev pub shared : ℕ
shared = 0x100000

-- nodev|nosuid|noexec
abbrev pub plain : ℕ
plain = bit_or (bit_or nodev nosuid) noexec

unfoldable pub mount_tmpfs : M (Unit {0})
mount_tmpfs = do
  mount_silent (codes "proc") (codes "/proc") (codes "proc") (bit_or plain relatime) []
  mount (codes "tmpfs") (codes "/run") (codes "tmpfs") (bit_or plain relatime)
      (codes "size=10%,mode=755")
  mount (codes "tmpfs") (codes "/tmp") (codes "tmpfs") (bit_or plain relatime)
      (codes "size=10%,mode=1777")

unfoldable pub make_var : M (Unit {0})
make_var = do
  mkdir (codes "/var/cache") 0o755
  mkdir (codes "/var/empty") 0o555
  mkdir (codes "/var/lib") 0o755
  mkdir (codes "/var/local/bin") 0o755
  mkdir (codes "/var/lock") 0o755
  mkdir (codes "/var/log") 0o755
  mkdir (codes "/var/opt") 0o755
  mkdir (codes "/var/spool") 0o755
  mkdir (codes "/var/tmp") 0o1777
  mkdir (codes "/home") 0o755
  symlink (codes "/run") (codes "/var/run")

unfoldable pub make_devices : Kernel → M (Unit {0})
make_devices kernel = do
  mount (codes "dev") (codes "/dev") (codes "devtmpfs") (bit_or (bit_or nosuid noexec) relatime)
      (codes "size=10m,nr_inodes=248418,mode=755")
  mkchar kernel (codes "/dev/console") 0o600 5 1
  mkchar kernel (codes "/dev/tty1") 0o620 4 1
  mkchar kernel (codes "/dev/tty") 0o666 5 0
  mkchar kernel (codes "/dev/null") 0o666 1 3
  mkchar kernel (codes "/dev/kmsg") 0o660 1 11
  symlink (codes "/proc/self/fd") (codes "/dev/fd")
  symlink (codes "/proc/self/fd/0") (codes "/dev/stdin")
  symlink (codes "/proc/self/fd/1") (codes "/dev/stdout")
  symlink (codes "/proc/self/fd/2") (codes "/dev/stderr")
  symlink (codes "/proc/kcore") (codes "/dev/kcore")

unfoldable pub mount_devices : M (Unit {0})
mount_devices = do
  mkdir (codes "/dev/mqueue") 0o1777
  mkdir (codes "/dev/shm") 0o1777
  mkdir (codes "/dev/pts") 0o755
  mount (codes "mqueue") (codes "/dev/mqueue") (codes "mqueue") plain []
  mount (codes "shm") (codes "/dev/shm") (codes "tmpfs") plain (codes "mode=1777")
  mount (codes "devpts") (codes "/dev/pts") (codes "devpts") (bit_or noexec nosuid)
      (codes "gid=5,mode=0620")

unfoldable pub mount_sys : M (Unit {0})
mount_sys = do
  mount (codes "sysfs") (codes "/sys") (codes "sysfs") plain []
  mount_silent (codes "securityfs") (codes "/sys/kernel/security") (codes "securityfs") plain []
  mount_silent (codes "debugfs") (codes "/sys/kernel/debug") (codes "debugfs") plain []
  mount_silent (codes "configfs") (codes "/sys/kernel/config") (codes "configfs") plain []
  mount_silent (codes "fusectl") (codes "/sys/fs/fuse/connections") (codes "fusectl") plain []
  mount_silent (codes "selinuxfs") (codes "/sys/fs/selinux") (codes "selinuxfs")
      (bit_or noexec nosuid) []
  mount_silent (codes "pstore") (codes "/sys/fs/pstore") (codes "pstore") plain []
  mount_silent (codes "efivarfs") (codes "/sys/firmware/efi/efivars") (codes "efivarfs") plain []
  mount_silent (codes "binfmt_misc") (codes "/proc/sys/fs/binfmt_misc") (codes "binfmt_misc") plain
      []

-- The body of the loop over the control groups.
unfoldable pub mount_cgroup : Bytes → M (Unit {0})
mount_cgroup cg = do
  mkdir (path_join (codes "/sys/fs/cgroup" ∷ cg ∷ [])) 0o555
  mount cg (path_join (codes "/sys/fs/cgroup" ∷ cg ∷ [])) (codes "cgroup") plain cg

unfoldable pub mount_cgroups : M (Unit {0})
unfolding mount_cgroup
mount_cgroups = do
  mount (codes "cgroup_root") (codes "/sys/fs/cgroup") (codes "tmpfs") plain
      (codes "mode=755,size=10m")
  cgs ← cgroup_list
  for_each cgs mount_cgroup
  write (codes "/sys/fs/cgroup/memory/memory.use_hierarchy") (codes "1")
  mkdir (codes "/sys/fs/cgroup/systemd") 0o555
  mount (codes "cgroup") (codes "/sys/fs/cgroup/systemd") (codes "cgroup") 0
      (codes "none,name=systemd")

unfoldable pub do_mounts : Kernel → M (Unit {0})
unfolding mount_tmpfs make_var make_devices mount_devices mount_sys mount_cgroups
do_mounts kernel = do
  mount_tmpfs
  make_var
  make_devices kernel
  mount_devices
  mount_sys
  mount_cgroups
  mount [] (codes "/") [] (bit_or rec shared) []
