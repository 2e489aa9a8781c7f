-- ===== src/Enter/Run/Laws.antt =====
-- What stands in place of the process in the end.
use edgi_os.Base.{
  Bytes, codes, ℕ, append_assoc, bytes_discrete, [], ◌∷◌, ◌++◌, ◌≡◌, ◌≢◌, refl, some, arith, same,
  if◌then◌else◌,
}
use edgi_os.Base.Paths.{clean}
use edgi_os.Os.World.{ok, World, file, pivoted, chrooted, moved_to, replaced, ◌>>=◌}
use edgi_os.Os.Files.{stat, follow}
use edgi_os.Os.Process.{exec, chdir, chroot, setenv}
use edgi_os.Enter.Host.{Host}
use edgi_os.Enter.Run.{switch_root, pivot_root}

-- The environment without the three variables of the way in.
abbrev pub Cleared : (Bytes → Bytes) → (Bytes → Bytes) → Type 0
Cleared old new =
    (new (codes "ENTER_ROOT") ≡ [])
    × (new (codes "ENTER_DATA") ≡ [])
    × (new (codes "ENTER_DEVICE") ≡ [])
    × ((k : Bytes)
        → k ≢ codes "ENTER_ROOT"
        → k ≢ codes "ENTER_DATA"
        → k ≢ codes "ENTER_DEVICE"
        → new k ≡ old k)

-- Where no call fails, the new root is made private, and the new root holds a file /usr/init: the root is
-- changed, left and entered, and then that init takes the place of the process, in an environment
-- with the three variables of the way in unset and the others as they were.
pub switch_root-replaced :
    (host : Host) (path s : Bytes) (m : ℕ) (w : World)
    → w.faults ≡ []
    → ((v : World)
        → host.force_mount [] (codes ".") (codes "none") (codes "rprivate") v ≡ (ok tt, v))
    → w.files (clean path ++ codes "/usr/init") ≡ some (file m s)
    → let (r, w') = switch_root host path w in
      (r ≡ ok tt)
      × ((env : Bytes → Bytes) × (w'.trace
            ≡ w.trace
              ++ pivoted (codes ".") (codes ".base")
                ∷ chrooted (codes "/")
                ∷ moved_to (codes "/")
                ∷ replaced (codes "/usr/init") (host.program ∷ host.arguments) env
                ∷ [])
          × Cleared w.env env)
unfolding switch_root pivot_root stat follow exec chdir chroot setenv ◌>>=◌ bytes_discrete
switch_root-replaced host path s m w f h init =
    let pivot = pivoted (codes ".") (codes ".base") in
    let inside : World = record w {
      faults = [];
      files = λ q. w.files (clean path ++ q);
      trace = w.trace ++ pivot ∷ [];
    } in
    let unset : Bytes → Bytes = λ j.
      if same (codes "ENTER_DEVICE") j
      then []
      else if same (codes "ENTER_DATA") j
      then []
      else if same (codes "ENTER_ROOT") j
      then []
      else w.env j in
    rw f (
      rw (h inside) (
        rw init (
          rw init (refl, (unset, simp append_assoc, (refl, refl, refl, λ k a b c. ground arith))))))
