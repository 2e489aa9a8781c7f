-- ===== src/Enter/Root/Laws.antt =====
-- What Mount hands over to the program that takes its place.
use edgi_os.Enter.Root.Names.{Named, find_root-Named}
use edgi_os.Base.{
  Bytes, codes, ℕ, Bool, true, false, [], ◌∷◌, ◌++◌, ◌==◌, ◌||◌, ◌≡◌, ◌≢◌, refl, arith,
  bytes_discrete, Bool-cases, inl, inr,
}
use edgi_os.Os.World.{
  Result, ok, err, Node, wrapped, Fault, fine, fail, short, under_fault, head_fault, charge, emit,
  World, M, pure, lift, attempt, when, replaced, ◌>>=◌, ◌>>◌,
}
use edgi_os.Os.Files.{stat}
use edgi_os.Os.Process.{run, setenv, exec}
use edgi_os.Os.Replaced.{Last}
use edgi_os.Os.Keeps.{
  Any, Any-Keeps, Keeps, Keeps-pure, Keeps-raise, Keeps-attempt, Keeps-bind, Ends, Ends-bind,
  Ends-then,
}
use edgi_os.Enter.Host.{Host}
use edgi_os.Enter.Loop.{wrap, wrapping, ensureloop}
use edgi_os.Enter.Root.{
  find_root, is_directory, is_debug, enter_again, detached, enter_with, enter_from, mount_root,
}

-- The variables that the next program reads.
abbrev Ready : Bytes → World → Type 0
Ready data_dir w = (w.env (codes "ENTER_DATA") ≡ data_dir) × (w.env (codes "ENTER_ROOT") ≢ [])

-- Where the process was replaced, the last event is that the program runs again as `enter-root` with
-- the same arguments, and its variables name the data and a root.
abbrev pub Handed : Host → Bytes → Result Bool → World → Type 0
Handed host data_dir (ok true) w =
    (w.env (codes "ENTER_DATA") ≡ data_dir)
    × (w.env (codes "ENTER_ROOT") ≢ [])
    × Last host.program (codes "enter-root" ∷ host.arguments) w
Handed host data_dir _ w = Unit

wrap-Keeps {ℓ κ} :
    {A : Type ℓ} {P : World → Type κ} (text : Bytes) (r : Result A) → Keeps P (wrap text r)
wrap-Keeps text (ok a) = Keeps-pure a
wrap-Keeps text (err e) = Keeps-raise (wrapped text e)

wrapping-Keeps {ℓ κ} :
    {A : Type ℓ} {P : World → Type κ} (text : Bytes) (m : M A)
    → Keeps P m
    → Keeps P (wrapping text m)
wrapping-Keeps text m k = Keeps-bind (attempt m) (Keeps-attempt m k) (wrap text) (wrap-Keeps text)

-- The variables stay as they are.
module _ (data_dir : Bytes) where
  stat-Ready : (p : Bytes) → Keeps (Ready data_dir) (stat p)
  unfolding stat
  stat-Ready p = record { at = λ w h. ground arith }

  set_device-Ready :
      (device : Bytes) → Keeps (Ready data_dir) (setenv (codes "ENTER_DEVICE") device)
  unfolding setenv bytes_discrete
  set_device-Ready device = record { at = λ w h. h }

  module _ (host : Host) where
    abbrev replaced_under : Fault → M Bool
    replaced_under f =
        wrapping (codes "failed to exec enter-root") (
          under_fault f (λ u. (
            ok (tt {0}),
            emit (replaced host.program (codes "enter-root" ∷ host.arguments) u.env) u,
          )))
        >> pure true

    replaced_under-Handed :
        (f : Fault) (w : World)
        → Ready data_dir w
        → let (r, w') = replaced_under f w in Handed host data_dir r w'
    unfolding ◌>>=◌
    replaced_under-Handed fine w (h, g) = (h, g, (w.trace, refl))
    replaced_under-Handed (fail e) w h = tt
    replaced_under-Handed (short n e) w h = tt

    exec-Handed : Ends (Ready data_dir) (Handed host data_dir) (
        wrapping
          (codes "failed to exec enter-root")
          (exec host.program (codes "enter-root" ∷ host.arguments))
        >> pure true)
    unfolding exec ◌>>=◌
    exec-Handed = record { at = λ w h. replaced_under-Handed (head_fault w.faults) (charge w) h }

    run-Handed :
        Ends
          (Ready data_dir)
          (Handed host data_dir)
          (run host.program (codes "enter-root" ∷ host.arguments) [] [] >> pure false)
    unfolding run ◌>>=◌
    run-Handed = record { at = λ w h. ground arith }

    enter_again-Handed : Ends (Ready data_dir) (Handed host data_dir) (enter_again host)
    unfolding enter_again
    enter_again-Handed = elim (Bool-cases (host.pid == 1)) [
      | inl e ↦ rw (e, enter_again) exec-Handed
      | inr n ↦ rw (n, enter_again) run-Handed
    ]

    detached-Handed :
        (device : Bytes) (r : Result Bool)
        → Ends (Handed host data_dir r) (Handed host data_dir) (detached host device r >> lift r)
    unfolding ◌>>=◌
    detached-Handed device (ok true) = record { at = λ w h. h }
    detached-Handed device (ok false) = record { at = λ w h. tt }
    detached-Handed device (err e) = record { at = λ w h. tt }

    -- An attempt came to what the action came to.
    abbrev Tried : Result (Result Bool) → World → Type 0
    Tried (ok r) w = Handed host data_dir r w
    Tried (err e) w = Unit

    attempt-Tried :
        (m : M Bool)
        → Ends (Ready data_dir) (Handed host data_dir) m
        → Ends (Ready data_dir) Tried (attempt m)
    unfolding attempt
    attempt-Tried m k = record { at = λ w h. k.at w h }

    enter_with-Handed :
        (device : Bytes) → Ends (Ready data_dir) (Handed host data_dir) (enter_with host device)
    unfolding enter_with
    enter_with-Handed device =
        Ends-bind (λ e w h. tt) (setenv (codes "ENTER_DEVICE") device) _ (set_device-Ready device)
          λ _.
            Ends-then Tried (Handed host data_dir) (λ e w h. tt) _ (detached-Handed device)
              (attempt (enter_again host)) (attempt-Tried (enter_again host) enter_again-Handed)

    module _
        (attach-Ready : (p : Bytes) (offset : ℕ)
          → Keeps (Ready data_dir) (host.attach p offset)) where
      enter_from-Handed :
          (root : Bytes) (offset : ℕ) (info : Node)
          → Ends (Ready data_dir) (Handed host data_dir) (enter_from host root offset info)
      unfolding enter_from
      enter_from-Handed root offset info = elim (Bool-cases (is_directory info)) [
        | inl e ↦ rw (e, enter_from) enter_again-Handed
        | inr n ↦
            rw (n, enter_from)
              (Ends-bind (λ e w h. tt)
                (wrapping (codes "creating loopback device") (host.attach root offset)) _
                (wrapping-Keeps _ (host.attach root offset) (attach-Ready root offset))
                enter_with-Handed)
      ]

      abbrev HasData : World → Type 0
      HasData w = w.env (codes "ENTER_DATA") ≡ data_dir

      set_data-HasData : Ends Any (λ r w. HasData w) (setenv (codes "ENTER_DATA") data_dir)
      unfolding setenv bytes_discrete
      set_data-HasData = record { at = λ w h. refl }

      set_root-Ready :
          (root : Bytes)
          → root ≢ []
          → Ends HasData (λ r w. Ready data_dir w) (setenv (codes "ENTER_ROOT") root)
      unfolding setenv bytes_discrete
      set_root-Ready root n = record { at = λ w h. (h, n) }

      -- What follows the search for the root.
      found-Handed :
          (root : Bytes) (offset : ℕ)
          → root ≢ []
          → Ends Any (Handed host data_dir) (
              setenv (codes "ENTER_DATA") data_dir >>= λ _.
              setenv (codes "ENTER_ROOT") root >>= λ _.
              wrapping (codes "failed to find " ++ root) (stat root) >>= λ info.
              enter_from host root offset info)
      found-Handed root offset n =
          Ends-then (λ r w. HasData w) (Handed host data_dir) (λ e w h. tt) _
            (λ _.
              Ends-then (λ r w. Ready data_dir w) (Handed host data_dir) (λ e w h. tt) _
                (λ _.
                  Ends-bind (λ e w h. tt) (wrapping (codes "failed to find " ++ root) (stat root)) _
                    (wrapping-Keeps _ (stat root) (stat-Ready root))
                    (enter_from-Handed root offset))
                (setenv (codes "ENTER_ROOT") root) (set_root-Ready root n))
            (setenv (codes "ENTER_DATA") data_dir) set_data-HasData

      module _ (own : host.self ≢ []) (called : host.program ≢ []) where
        pub mount_from :
            (word : Bytes) (verbose : Bool)
            → Ends Any (Handed host data_dir) (mount_root host word verbose data_dir)
        unfolding mount_root
        mount_from word verbose =
            Ends-bind (λ e w h. tt) (ensureloop host) _ (Any-Keeps (ensureloop host))
              λ _.
                Ends-bind (λ e w h. tt) (is_debug word) _ (Any-Keeps (is_debug word))
                  λ debug.
                    Ends-bind (λ e w h. tt)
                      (when (verbose || debug) (setenv (codes "ENTER_DEBUG") (codes "true"))) _
                      (Any-Keeps _)
                      λ _.
                        Ends-then (λ r w. Named r) (Handed host data_dir) (λ e w h. tt) _
                          (λ (root, offset). record {
                            at = λ w n. (found-Handed root offset n).at w tt;
                          })
                          (find_root host)
                          (record { at = λ w h. find_root-Named host own called w })

-- Under any faults, whether the root is a directory, a file beside the program or an image inside
-- it, where the program and its own file have names and attaching a loop device leaves the
-- variables: if the process is replaced, the last event is that the program starts again as
-- `enter-root` with the same arguments, and its variables name the data and a root.
pub mount_root-Handed :
    (host : Host) (word data_dir : Bytes) (verbose : Bool) (w : World)
    → host.self ≢ []
    → host.program ≢ []
    → ((p : Bytes) (offset : ℕ) (v : World) → (host.attach p offset v).1.env ≡ v.env)
    → let (r, w') = mount_root host word verbose data_dir w in Handed host data_dir r w'
mount_root-Handed host word data_dir verbose w own called same_env =
    (mount_from data_dir host (λ p offset. record { at = λ v h. rw (same_env p offset v) h }) own
        called word verbose).at
      w tt
