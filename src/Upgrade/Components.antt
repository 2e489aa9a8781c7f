-- ===== src/Upgrade/Components.antt =====
-- What an upgrade makes of the results of its copies.
use edgi_os.Base.{Bytes, codes, Bool, true, false, not, ◌&&◌, ◌≡◌, refl, arith}
use edgi_os.Os.World.{Result, ok, err, World, M, pure, log, ◌>>=◌}
use edgi_os.Os.Completes.{Yields, Yields-pure, Yields-attempt, Yields-bind}
use edgi_os.Component.{copy_component}
use edgi_os.Upgrade.{Options, Progress, copied_from, upgrade_component, upgrade_components}

-- The destination is still to be mounted anew where that was asked for and nothing was copied yet.
abbrev Pending : Options → Progress → Type 0
Pending o p = p.remount ≡ (o.remount && not p.copied)

log-Yields :
    {P : Progress → Type 0} (s : Bytes) (p : Progress) → P p → Yields P (log s >>= λ _. pure p)
unfolding log ◌>>=◌
log-Yields s p h = record { at = λ w. (p, refl, h) }

copied_from-Pending :
    (o : Options) (p : Progress) (r : Result Bool)
    → Pending o p
    → Yields (Pending o) (copied_from p r)
copied_from-Pending o p (err e) h = log-Yields (codes "error") p h
copied_from-Pending o p (ok false) h = Yields-pure p h
copied_from-Pending o p (ok true) h = Yields-pure _ (ground arith)

module _ (copy : Bytes → Bytes → M (Unit {0}))
    (mount : Bytes → Bytes → Bytes → Bytes → M (Unit {0})) (flock unlock : Bytes → M (Unit {0}))
    (look_path : Bytes → M Bytes) (o : Options) where
  upgrade_component-Pending :
      (b : Bool) (key : Bytes) (p : Progress)
      → Pending o p
      → Yields (Pending o) (upgrade_component copy mount flock unlock look_path o b key p)
  unfolding upgrade_component
  upgrade_component-Pending false key p h = Yields-pure p h
  upgrade_component-Pending true key p h =
      Yields-attempt (copy_component copy mount o.source o.destination p.remount key)
        (copied_from p) (λ r. copied_from-Pending o p r h)

  abbrev start : Progress
  start = record { copied = false; remount = o.remount }

  -- Whatever fails, the copies of components too, the loop over the components comes to an end with a
  -- value, and by that value the destination is still to be mounted anew exactly where this was asked
  -- for and nothing was copied.
  pub upgrade_components-Pending :
      (w : World)
      → (p : Progress) × ((upgrade_components copy mount flock unlock look_path o w).0 ≡ ok p)
        × (p.remount ≡ (o.remount && not p.copied))
  unfolding upgrade_components
  upgrade_components-Pending w =
      (Yields-bind
          (upgrade_component copy mount flock unlock look_path o o.edgi (codes "edgi") start) _
          (upgrade_component-Pending o.edgi (codes "edgi") start (ground arith))
          (λ p h.
            Yields-bind
              (upgrade_component copy mount flock unlock look_path o o.k3s (codes "k3s") p) _
              (upgrade_component-Pending o.k3s (codes "k3s") p h)
              (λ q g. upgrade_component-Pending o.kernel (codes "kernel") q g))).at
        w
