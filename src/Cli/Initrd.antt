-- ===== src/Cli/Initrd.antt =====
-- What the first process of a boot becomes: initrd of main.go.
use edgi_os.Base.{Bytes, codes, ℕ, Bool, true, false, [], if◌then◌else◌, ◌≡◌, ◌≢◌, ◌⊎◌, inl, inr}
use edgi_os.Os.World.{Error, Result, ok, err, World, pure, ◌>>◌}
use edgi_os.Os.Logged.{logged}
use edgi_os.Os.Keeps.{Any, Any-Keeps, Ends, Ends-bind, Ends-then}
use edgi_os.Enter.Host.{Host}
use edgi_os.Enter.Root.{mount_root}
use edgi_os.Enter.Root.Laws.{Handed, mount_from}
use edgi_os.Transfer
use edgi_os.Transfer.{relocate}
use edgi_os.Transfer.Once.{Marked, relocate-Marked}
use edgi_os.Cli.{initrd}

-- By the result: the process was replaced after a move of the root, or for the root that was found.
pub Started : Host → Result Bool → World → Type 0
Started host (ok true) w = Marked (ok true) w ⊎ Handed host (codes "./edgi/data") (ok true) w
Started host _ w = Unit

Handed-Started :
    (host : Host) (r : Result Bool) (w : World)
    → Handed host (codes "./edgi/data") r w
    → Started host r w
unfolding Started
Handed-Started host (ok true) w h = inr h
Handed-Started host (ok false) w h = tt
Handed-Started host (err e) w h = tt

failed-Started : (host : Host) (e : Error) (w : World) → Started host (err e) w
unfolding Started
failed-Started host e w = tt

relocate-Ends : (kernel : Transfer.Kernel) → Ends Any Marked (relocate kernel)
relocate-Ends kernel = record { at = λ w h. relocate-Marked kernel w }

module _ (host : Host) (word : Bytes) (verbose : Bool) (own : host.self ≢ [])
    (called : host.program ≢ [])
    (same_env : (p : Bytes) (offset : ℕ) (v : World) → (host.attach p offset v).1.env ≡ v.env) where
  mount_root-Started : Ends Any (Started host) (mount_root host word verbose (codes "./edgi/data"))
  mount_root-Started = record {
    at = λ w h.
        Handed-Started host (mount_root host word verbose (codes "./edgi/data") w).0
          (mount_root host word verbose (codes "./edgi/data") w).1
          ((mount_from (codes "./edgi/data") host
              (λ p offset. record { at = λ v g. rw (same_env p offset v) g }) own called word
              verbose).at
            w tt);
  }

  moved-Started :
      (moved : Bool)
      → Ends (Marked (ok moved)) (Started host) (
          if moved
          then pure true
          else (logged (host.mount [] (codes "/") (codes "none") (codes "rw,remount"))
              >> mount_root host word verbose (codes "./edgi/data")))
  moved-Started true = unfold pure Started in record { at = λ w h. inl h }
  moved-Started false = record {
    at = λ w h.
        (Ends-bind (λ e v g. failed-Started host e v)
            (logged (host.mount [] (codes "/") (codes "none") (codes "rw,remount"))) _ (Any-Keeps _)
            (λ _. mount_root-Started)).at
          w tt;
  }

-- Under any faults, where the program and its own file have names and attaching a loop device leaves
-- the variables: if the init's process is replaced, then one of two. Either the last events are that
-- the directory the process was in was moved over `/` and became the root, and that `/init` starts, in
-- an environment where the variable of the move is set. Or the last event is that the program starts
-- as `enter-root` with the same arguments, and the variables name `./edgi/data` and a root.
pub initrd-Started :
    (kernel : Transfer.Kernel) (host : Host) (verbose : Bool) (w : World)
    → host.self ≢ []
    → host.program ≢ []
    → ((p : Bytes) (offset : ℕ) (v : World) → (host.attach p offset v).1.env ≡ v.env)
    → let (r, v) = initrd kernel host verbose w in Started host r v
unfolding initrd
initrd-Started kernel host verbose w own called same_env =
    (Ends-then Marked (Started host) (λ e v h. failed-Started host e v) _
        (moved-Started host (codes "edgi.debug") verbose own called same_env) (relocate kernel)
        (relocate-Ends kernel)).at
      w tt
