-- ===== src/Upgrade.antt =====
-- pkg/cli/upgrade/upgrade.go: the upgrade of the components of a system from another tree.
pub mod Laws
pub mod Components
use edgi_os.Base.{
  Bytes, codes, ℕ, Bool, true, false, not, List, [], ◌∷◌, Option, none, some, same, ◌||◌, ◌&&◌,
  if◌then◌else◌,
}
use edgi_os.Base.Paths.{path_join, clean}
use edgi_os.Os.World.{
  Error, message, Result, ok, err, Node, file, directory, link, M, pure, raise, attempt, defer, log,
  when, ◌>>=◌, ◌>>◌,
}
use edgi_os.Os.Files.{stat, open_truncated, close}
use edgi_os.Os.Process.{run, chroot, chdir, sync}
use edgi_os.System.{root_path}
use edgi_os.Component.{copy_component, not_directory}

-- The flags of the command.
pub record Options : Type 0 where
  pub edgi : Bool
  pub k3s : Bool
  pub kernel : Bool
  pub rootfs : Bool
  pub remount : Bool
  pub sync : Bool
  pub reboot : Bool
  pub source : Bytes
  pub destination : Bytes
  pub lock_file : Bytes

-- Before of the command: the flags as Run finds them, or the exit of the process.
unfoldable pub before : Options → M Options
before o =
    if same o.destination o.source
    then raise (message (codes "the `destination` cannot be the `source`"))
    else (let chosen : Options = record o { edgi = o.edgi || o.rootfs; k3s = o.k3s || o.rootfs } in
        if not chosen.edgi && (not chosen.k3s && not chosen.kernel)
        then raise (message (codes "must specify components to upgrade, e.g. `rootfs`, `kernel`"))
        else pure chosen)

abbrev pub need_directory : Bytes → Node → M (Unit {0})
need_directory root (directory m) = pure tt
need_directory root (file m s) = raise (not_directory root)
need_directory root (link t) = raise (not_directory root)

unfoldable pub validate_system_root : Bytes → M (Unit {0})
validate_system_root root = do info ← stat root; need_directory root info

-- Whether something was copied, and whether the destination is still to be mounted anew.
pub record Progress : Type 0 where
  pub copied : Bool
  pub remount : Bool

abbrev pub copied_from : Progress → Result Bool → M Progress
copied_from p (err e) = do log (codes "error"); pure p
copied_from p (ok false) = pure p
copied_from p (ok true) = pure (record { copied = true; remount = false })

-- copy.Copy and mount.Mount as in CopyComponent, unix.Flock on the file at a path, and exec.LookPath
module _ (copy : Bytes → Bytes → M (Unit {0}))
    (mount : Bytes → Bytes → Bytes → Bytes → M (Unit {0})) (flock unlock : Bytes → M (Unit {0}))
    (look_path : Bytes → M Bytes) where
  -- One component, if its flag says so; an error is logged.
  unfoldable pub upgrade_component : Options → Bool → Bytes → Progress → M Progress
  unfolding ◌>>=◌
  upgrade_component o false key p = pure p
  upgrade_component o true key p = do
    result ← attempt (copy_component copy mount o.source o.destination p.remount key)
    copied_from p result

  unfoldable pub upgrade_components : Options → M Progress
  unfolding upgrade_component
  upgrade_components o = do
    p ← upgrade_component o o.edgi (codes "edgi") (record { copied = false; remount = o.remount })
    q ← upgrade_component o o.k3s (codes "k3s") p
    upgrade_component o o.kernel (codes "kernel") q

  -- Without nsenter, the other tree becomes the root.
  abbrev pub enter_destination : Options → Result Bytes → M (Unit {0})
  enter_destination o (ok path) = pure tt
  enter_destination o (err e) = do
    log (codes "nsenter")
    if same o.destination (root_path []) then pure tt else do
      chroot (clean (path_join (o.destination ∷ codes ".." ∷ codes ".." ∷ [])))
      chdir (codes "/")

  unfoldable pub reboot : Options → M (Unit {0})
  unfolding ◌>>=◌
  reboot o = do
    path ← attempt (look_path (codes "nsenter"))
    enter_destination o path
    run (codes "nsenter")
        (codes "-m"
          ∷ codes "-u"
          ∷ codes "-i"
          ∷ codes "-n"
          ∷ codes "-p"
          ∷ codes "-t"
          ∷ codes "1"
          ∷ codes "reboot"
          ∷ [])
        [] []
    pure tt

  -- What follows the copies.
  unfoldable pub finish : Options → Progress → M (Unit {0})
  unfolding reboot
  finish o p = do when (p.copied && o.sync) sync; when (p.copied && o.reboot) (reboot o)

  -- Run. logrus.Fatal ends the process, without the deferred calls.
  unfoldable pub upgrade : Options → M (Unit {0})
  unfolding validate_system_root upgrade_components finish
  upgrade o = do
    validate_system_root o.source
    validate_system_root o.destination
    open_truncated o.lock_file 0o644
    flock o.lock_file
    p ← upgrade_components o
    finish o p
    attempt (unlock o.lock_file)
    attempt (close o.lock_file)
    pure tt
