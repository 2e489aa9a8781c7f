-- ===== src/Enter/Run.antt =====
-- run and what it calls, of pkg/enterchroot/enter.go. The level of the log,
-- which decides only which lines it prints, is left out. A relative path is written out from the directory that the process is in.
pub mod Laws
use edgi_os.Base.{
  Bytes, codes, ℕ, Bool, true, false, List, [], ◌∷◌, ◌++◌, contains, is_empty, if◌then◌else◌,
}
use edgi_os.Base.Paths.{path_join, clean}
use edgi_os.Os.World.{
  Error, not_exist, wrapped, message, Result, ok, err, Node, M, pure, raise, lift, attempt, log,
  when, call, emit, pivoted, for_each, ◌>>=◌, ◌>>◌,
}
use edgi_os.Os.Files.{stat, lstat, read_file}
use edgi_os.Os.Tree.{mkdir_all, symlink}
use edgi_os.Os.Process
use edgi_os.Os.Process.{getenv, setenv, exec, chdir, chroot}
use edgi_os.Enter.Host.{Host}
use edgi_os.Enter.Loop.{wrap, wrapping}

abbrev pub lists_squashfs : Result Bytes → M Bool
lists_squashfs (ok bytes) = pure (contains bytes (codes "squashfs"))
lists_squashfs (err e) = do log (codes "Failed to read /proc/filesystems"); pure false

unfoldable pub in_proc_fs : M Bool
in_proc_fs = do bytes ← attempt (read_file (codes "/proc/filesystems")); lists_squashfs bytes

abbrev pub unsupported : Error
unsupported = message (codes "This kernel does not support squashfs, please enable.")

unfoldable pub check_squashfs : M (Unit {0})
unfolding in_proc_fs
check_squashfs = do
  known ← in_proc_fs
  when (if known then false else true)
      (do attempt (Process.run (codes "modprobe") (codes "squashfs" ∷ []) [] []); pure tt)
  known_now ← in_proc_fs
  if known_now then pure tt else raise unsupported

-- The error of the mount, with that of the check around it.
abbrev pub squash_result : Result (Unit {0}) → Result (Unit {0}) → M (Unit {0})
squash_result squash (ok _) = pure tt
squash_result (ok _) (err e) = raise (wrapped (codes "mounting squashfs") e)
squash_result (err s) (err e) = raise (
    wrapped (codes "This kernel does not support squashfs, please enable.")
      (wrapped (codes "mounting squashfs") e))

abbrev pub link_unless : Bytes → Bytes → Result Node → M (Unit {0})
link_unless path p (err not_exist) =
    wrapping (codes "failed to symlink " ++ p)
      (symlink (path_join (codes "usr" ∷ p ∷ [])) (path_join (path ∷ p ∷ [])))
link_unless path p _ = pure tt

-- The links into usr that are not there.
unfoldable pub link_all : Bytes → M (Unit {0})
link_all path =
    for_each (codes "lib" ∷ codes "bin" ∷ codes "sbin" ∷ [])
      (λ p. do found ← attempt (lstat (path_join (path ∷ p ∷ []))); link_unless path p found)

-- syscall.PivotRoot: from then on a path leads from the new root.
unfoldable pub pivot_root : Bytes → M (Unit {0})
unfolding clean
pivot_root path = call (λ w. (
  ok tt,
  emit (pivoted (codes ".") (codes ".base")) (record w { files = λ q. w.files (clean path ++ q) }),
))

-- unix.RLIMIT_NPROC, unix.RLIMIT_NOFILE, unix.RLIMIT_MEMLOCK and unix.RLIM_INFINITY
abbrev pub rlimit_nproc : ℕ
rlimit_nproc = 6

abbrev pub rlimit_nofile : ℕ
rlimit_nofile = 7

abbrev pub rlimit_memlock : ℕ
rlimit_memlock = 8

abbrev pub rlim_infinity : ℕ
rlim_infinity = 0xffffffffffffffff

abbrev pub log_limit : Result (Unit {0}) → M (Unit {0})
log_limit (ok _) = pure tt
log_limit (err e) = log (codes "Failed to set rlimit")

module _ (host : Host) where
  unfoldable pub bind_data : Bytes → Bool → M (Unit {0})
  bind_data path mounted = if mounted then pure tt else do
    wrapping (codes "mkdir " ++ path) (mkdir_all path 0o755)
    wrapping (codes "remounting data " ++ path)
        (host.mount path path (codes "none") (codes "rbind"))

  unfoldable pub mount_usr : Bytes → Bytes → Bytes → M (Unit {0})
  unfolding check_squashfs
  mount_usr device root usr =
      if is_empty device
      then wrapping (codes "failed to bind mount")
          (host.mount root usr (codes "none") (codes "bind"))
      else do
        squash ← attempt check_squashfs
        r ← attempt (host.mount device usr (codes "squashfs") (codes "ro"))
        squash_result squash r

  -- The root is changed, and the system's init takes the place of the process.
  unfoldable pub switch_root : Bytes → M (Unit {0})
  switch_root path = do
    wrapping (codes "pivot_root failed") (pivot_root path)
    wrapping (codes "making . private " ++ path)
        (host.force_mount [] (codes ".") (codes "none") (codes "rprivate"))
    chroot (codes "/")
    chdir (codes "/")
    wrapping (codes "failed to find /usr/init") (stat (codes "/usr/init"))
    setenv (codes "ENTER_ROOT") []
    setenv (codes "ENTER_DATA") []
    setenv (codes "ENTER_DEVICE") []
    exec (codes "/usr/init") (host.program ∷ host.arguments)

  unfoldable pub run : Bytes → M (Unit {0})
  unfolding bind_data mount_usr link_all switch_root
  run path = do
    mounted ← wrapping (codes "checking mounted " ++ path) (host.mounted path)
    bind_data path mounted
    root ← getenv (codes "ENTER_ROOT")
    device ← getenv (codes "ENTER_DEVICE")
    for_each (path_join (path ∷ codes "usr" ∷ []) ∷ path_join (path ∷ codes ".base" ∷ []) ∷ [])
        (λ d. wrapping (codes "failed to make dir " ++ path) (mkdir_all d 0o755))
    mount_usr device root (path_join (path ∷ codes "usr" ∷ []))
    chdir path
    link_all path
    switch_root path

  -- setResourceLimit: an error is logged.
  unfoldable pub set_resource_limit : ℕ → ℕ → ℕ → M (Unit {0})
  set_resource_limit resource cur max = do
    r ← attempt (host.set_limit resource cur max)
    log_limit r

  -- Enter: an error ends the program.
  unfoldable pub enter : M (Unit {0})
  unfolding run set_resource_limit
  enter = do
    set_resource_limit rlimit_nofile 1048576 1048576
    set_resource_limit rlimit_nproc rlim_infinity rlim_infinity
    set_resource_limit rlimit_memlock 67108864 67108864
    path ← getenv (codes "ENTER_DATA")
    run path
