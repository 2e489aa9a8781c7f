-- ===== src/Enter/Loop.antt =====
-- pkg/enterchroot/ensureloop.go
use Prim.Native.Nat.{bit_and, bit_or}
use edgi_os.Base.{
  Bytes, codes, ℕ, zero, suc, ◌+◌, ◌*◌, ◌^◌, Bool, false, List, [], ◌∷◌, ◌++◌, ltb, length,
  if◌then◌else◌,
}
use edgi_os.Base.Strings.{itoa}
use edgi_os.Os.World.{wrapped, Result, ok, err, Node, M, pure, raise, attempt, ◌>>=◌, ◌>>◌}
use edgi_os.Os.Files.{stat}
use edgi_os.Os.Tree
use edgi_os.Os.Tree.{mkdir_all}
use edgi_os.Os.Process.{run}
use edgi_os.Enter.Host.{Host}

-- errors.Wrap
abbrev pub wrap {ℓ} : {A : Type ℓ} → Bytes → Result A → M A
wrap text (ok a) = pure a
wrap text (err e) = raise (wrapped text e)

abbrev pub wrapping {ℓ} : {A : Type ℓ} → Bytes → M A → M A
wrapping text m = do r ← attempt m; wrap text r

abbrev pub is_mounted : Result Bool → Bool
is_mounted (ok b) = b
is_mounted (err e) = false

-- More than two entries stand there.
abbrev pub is_filled : Result (List Bytes) → Bool
is_filled (ok names) = ltb 2 (length names)
is_filled (err e) = false

-- The number of a device.
unfoldable pub device_number : ℕ → ℕ → ℕ
device_number major minor =
    bit_or (bit_or (major * 2 ^ 8) (bit_and minor 0xff)) (bit_and minor 0xfff00 * 2 ^ 12)

abbrev pub make_unless : Result Node → M (Unit {0}) → M (Unit {0})
make_unless (ok n) make = pure tt
make_unless (err e) make = make

unfoldable pub mknod : Bytes → ℕ → ℕ → ℕ → M (Unit {0})
unfolding device_number
mknod path mode major minor = do
  found ← attempt (stat path)
  make_unless found (Tree.mknod path mode (device_number major minor))

-- unix.S_IFCHR, unix.S_IFBLK
abbrev pub character_device : ℕ
character_device = 0x2000

abbrev pub block_device : ℕ
block_device = 0x6000

-- The loop over the numbers of the devices, so many from `i`.
unfoldable pub make_loops : ℕ → ℕ → M (Unit {0})
unfolding mknod
make_loops zero i = pure tt
make_loops (suc n) i =
    let rest = make_loops n (i + 1) in
    mknod (codes "/dev/loop" ++ itoa i) (bit_or 0o700 block_device) 7 i >> rest

module _ (host : Host) where
  unfoldable pub mount_proc : M (Unit {0})
  mount_proc = do
    m ← attempt (host.mounted (codes "/proc"))
    if is_mounted m then pure tt else (do
      mkdir_all (codes "/proc") 0o755
      host.force_mount (codes "proc") (codes "/proc") (codes "proc") [])

  unfoldable pub mount_dev : M (Unit {0})
  mount_dev = do
    files ← attempt (host.read_dir (codes "/dev"))
    if is_filled files then pure tt else (do
      mkdir_all (codes "/dev") 0o755
      host.force_mount (codes "none") (codes "/dev") (codes "devtmpfs") [])

  unfoldable pub ensureloop : M (Unit {0})
  unfolding mount_proc mount_dev make_loops
  ensureloop = do
    wrapping (codes "failed to mount proc") mount_proc
    wrapping (codes "failed to mount dev") mount_dev
    attempt (run (codes "modprobe") (codes "loop" ∷ []) [] [])
    mknod (codes "/dev/loop-control") (bit_or 0o700 character_device) 10 237
    make_loops 7 0
