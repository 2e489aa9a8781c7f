-- ===== src/Enter/Root.antt =====
-- findRoot and Mount of pkg/enterchroot/enter.go.
pub mod Names
pub mod Laws
pub mod Quiet
use Prim.Native.Nat.{bit_or}
use edgi_os.Base.{
  Bytes, codes, ℕ, ◌==◌, Bool, true, false, ◌||◌, List, [], ◌∷◌, ◌++◌, same, is_empty,
  if◌then◌else◌,
}
use edgi_os.Base.Strings.{fields}
use edgi_os.Os.World.{
  Result, ok, err, Node, directory, M, pure, lift, attempt, call, when, ◌>>=◌, ◌>>◌,
}
use edgi_os.Os.Files.{stat, read_file}
use edgi_os.Os.Process.{run, getenv, setenv, exec}
use edgi_os.Enter.Host.{Host}
use edgi_os.Enter.Loop.{wrapping, ensureloop}
use edgi_os.Enter.Scan.{find_image}

abbrev pub has_word : Bytes → List Bytes → Bool
has_word word [] = false
has_word word (w ∷ ws) = same w word || has_word word ws

abbrev pub names_debug : Bytes → Result Bytes → Bool
names_debug word (ok bytes) = has_word word (fields bytes)
names_debug word (err e) = false

-- isDebug, with the word of the kernel's command line that asks for it
unfoldable pub is_debug : Bytes → M Bool
is_debug word = do
  set ← getenv (codes "ENTER_DEBUG")
  if same set (codes "true")
      then pure true
      else if is_empty word
      then pure false
      else (do bytes ← attempt (read_file (codes "/proc/cmdline")); pure (names_debug word bytes))

abbrev pub is_directory : Node → Bool
is_directory (directory m) = true
is_directory n = false

module _ (host : Host) where
  -- os.Open on the program's own file, and the search in it
  unfoldable pub in_file : M (Bytes × ℕ)
  in_file = do
    call (λ w. (ok (tt {0}), w))
    offset ← lift (find_image host.reads)
    pure (host.self, offset)

  -- The loop over the suffixes; the first file that os.Stat finds is taken.
  unfoldable pub beside : List Bytes → M (Bytes × ℕ)
  unfolding in_file
  beside [] = in_file
  beside (suffix ∷ suffixes) =
      let others = beside suffixes in
      do
        found ← attempt (stat (host.program ++ suffix))
        elim found [ ok n ↦ pure (host.program ++ suffix, 0) | err e ↦ others ]

  unfoldable pub find_root : M (Bytes × ℕ)
  unfolding beside
  find_root = do
    root ← getenv (codes "ENTER_ROOT")
    if is_empty root then beside (codes ".root" ∷ codes ".squashfs" ∷ []) else pure (root, 0)

  -- The program again, as `enter-root`: in place of the first process, or in new name spaces. The
  -- result says whether the process was replaced.
  unfoldable pub enter_again : M Bool
  enter_again =
      if host.pid == 1
      then (do
        wrapping (codes "failed to exec enter-root")
            (exec host.program (codes "enter-root" ∷ host.arguments))
        pure true)
      else (do run host.program (codes "enter-root" ∷ host.arguments) [] []; pure false)

  -- What the goroutine of Mount does after its three seconds: the kernel is to detach the device once
  -- nothing uses it. It is not woven into what follows here, and drops its errors.
  unfoldable pub mark_device : Bytes → M (Unit {0})
  mark_device device = do
    info ← host.flags device
    host.set_flags device (bit_or info host.auto_clear)

  -- `defer dev.Detach()`, which a process that was replaced does not come to
  abbrev pub detached : Bytes → Result Bool → M (Unit {0})
  detached device (ok true) = pure tt
  detached device _ = do attempt (host.detach device); pure tt

  unfoldable pub enter_with : Bytes → M Bool
  unfolding enter_again
  enter_with device = do
    setenv (codes "ENTER_DEVICE") device
    r ← attempt enter_again
    detached device r
    lift r

  unfoldable pub enter_from : Bytes → ℕ → Node → M Bool
  unfolding enter_with
  enter_from root offset info = if is_directory info then enter_again else do
    device ← wrapping (codes "creating loopback device") (host.attach root offset)
    enter_with device

  -- Mount; `verbose` says that the log is at the level of debugging.
  unfoldable pub mount_root : Bytes → Bool → Bytes → M Bool
  unfolding find_root enter_from is_debug
  mount_root word verbose data_dir = do
    ensureloop host
    debug ← is_debug word
    when (verbose || debug) (setenv (codes "ENTER_DEBUG") (codes "true"))
    (root, offset) ← find_root
    setenv (codes "ENTER_DATA") data_dir
    setenv (codes "ENTER_ROOT") root
    info ← wrapping (codes "failed to find " ++ root) (stat root)
    enter_from root offset info
