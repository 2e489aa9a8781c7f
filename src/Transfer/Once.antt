-- ===== src/Transfer/Once.antt =====
-- What the process that moved a root leaves.
pub mod Again
use edgi_os.Base.{
  Bytes, codes, Bool, true, false, List, [], ◌∷◌, ◌++◌, same, if◌then◌else◌, is_empty, ◌≡◌, ◌≢◌,
  refl, sym, arith, append-nil, append_assoc, Bool-cases, inl, inr, bytes_discrete,
}
use edgi_os.Base.Strings.{Signed}
use edgi_os.Os.World.{
  Result, ok, err, Event, mounted, chrooted, moved_to, replaced, World, M, pure, gets, emit, Fault,
  fine, fail, short, under_fault, head_fault, charge, call, ◌>>=◌, ◌>>◌,
}
use edgi_os.Os.Tree.{mkdir_all}
use edgi_os.Os.Process.{getenv, setenv, exec_env, append_env, mount, chroot, chdir}
use edgi_os.Os.Keeps.{Any, Any-Keeps, Ends, Ends-bind, Ends-then}
use edgi_os.Transfer.{
  Kernel, relocate, relocated, next_init, is_in_memory, move_flag, walk, copy_directory, move_file,
  remove_rest, take_root, copy_fs,
}

-- The last events are these.
abbrev pub Ended : List Event → World → Type 0
Ended es w = (before : List Event) × (w.trace ≡ before ++ es)

abbrev EndedBy : List Event → Result (Unit {0}) → World → Type 0
EndedBy es (ok _) w = Ended es w
EndedBy es (err e) w = Unit

-- The directory that the process is in became the root.
abbrev pub taking : List Event
taking =
    mounted (codes ".") (codes "/") [] move_flag []
    ∷ chrooted (codes ".")
    ∷ moved_to (codes "/")
    ∷ []

-- Where the process was replaced: the last events are that the root was moved and that the next program
-- takes the place of the process, in the environment as it is, and the variable is set in it.
unfoldable pub Marked : Result Bool → World → Type 0
Marked (ok true) w =
    Ended (taking ++ replaced next_init (next_init ∷ []) w.env ∷ []) w × (w.env relocated ≢ [])
Marked _ w = Unit

emit-EndedBy :
    (es : List Event) (e : Event) (f : Fault) (w : World)
    → Ended es w
    → let (r, v) = under_fault f (λ u. (ok (tt {0}), emit e u)) w in EndedBy (es ++ e ∷ []) r v
emit-EndedBy es e fine w (before, h) = (before, rw h (append_assoc before es (e ∷ [])))
emit-EndedBy es e (fail x) w h = tt
emit-EndedBy es e (short n x) w h = tt

call-EndedBy :
    (es : List Event) (e : Event)
    → Ends (Ended es) (EndedBy (es ++ e ∷ [])) (call (λ u. (ok (tt {0}), emit e u)))
call-EndedBy es e = record { at = λ w h. emit-EndedBy es e (head_fault w.faults) (charge w) h }

take_root-Ended : (kernel : Kernel) → Ends Any (EndedBy taking) (take_root kernel)
unfolding take_root mount chroot chdir
take_root-Ended kernel = record {
  at = λ w h.
      (Ends-then (EndedBy (mounted (codes ".") (codes "/") [] move_flag [] ∷ [])) (EndedBy taking)
          (λ e v g. tt) _
          (λ _.
            Ends-then
              (EndedBy
                (mounted (codes ".") (codes "/") [] move_flag [] ∷ chrooted (codes ".") ∷ []))
              (EndedBy taking) (λ e v g. tt) _ (λ _. call-EndedBy _ (moved_to (codes "/")))
              (chroot (codes ".")) (call-EndedBy _ (chrooted (codes "."))))
          (mount (codes ".") (codes "/") [] move_flag [])
          (call-EndedBy [] (mounted (codes ".") (codes "/") [] move_flag []))).at
        w (w.trace, sym (append-nil w.trace));
}

copy_fs-Ended :
    (kernel : Kernel) (new_root : Bytes) → Ends Any (EndedBy taking) (copy_fs kernel new_root)
unfolding copy_fs
copy_fs-Ended kernel new_root =
    Ends-bind (λ e w h. tt) kernel.root_device _ (Any-Keeps _)
      λ dev.
        Ends-bind (λ e w h. tt) (mount (codes "rootfs") new_root (codes "tmpfs") 0 []) _
          (Any-Keeps _)
          λ _.
            Ends-bind (λ e w h. tt)
              (walk (copy_directory kernel new_root dev) (codes "/") kernel.directories) _
              (Any-Keeps _)
              λ _.
                Ends-bind (λ e w h. tt)
                  (walk (move_file kernel new_root dev) (codes "/") kernel.files) _ (Any-Keeps _)
                  λ _.
                    Ends-bind (λ e w h. tt) (chdir new_root) _ (Any-Keeps _)
                      λ _.
                        Ends-bind (λ e w h. tt)
                          (walk (remove_rest kernel dev) (codes "/") kernel.remains) _ (Any-Keeps _)
                          λ _. take_root-Ended kernel

append_env-ne : (env : Bytes → Bytes) → append_env relocated (codes "true") env relocated ≢ []
unfolding append_env bytes_discrete
append_env-ne env = elim (Bool-cases (is_empty (env relocated))) [
  | inl e ↦ rw e (λ h. cc)
  | inr n ↦ rw n (λ h. ground arith)
]

-- The next program takes the place of the process.
abbrev pub handing : M Bool
handing = gets (λ w. w.env) >>= λ env.
    exec_env next_init (next_init ∷ []) (append_env relocated (codes "true") env) >> pure true

handed-Marked :
    (f : Fault) (env : Bytes → Bytes) (w : World)
    → Ended taking w
    → env relocated ≢ []
    → let (r, v) =
        (under_fault f (λ u. (
          ok (tt {0}),
          emit (replaced next_init (next_init ∷ []) env) (record u { env = env }),
        ))
            >> pure true)
          w in
      Marked r v
unfolding Marked ◌>>=◌
handed-Marked fine env w (before, h) n = ((before, rw h (append_assoc before taking _)), n)
handed-Marked (fail e) env w h n = tt
handed-Marked (short k e) env w h n = tt

handing-Marked : Ends (Ended taking) Marked handing
unfolding exec_env ◌>>=◌
handing-Marked = record {
  at = λ w h. handed-Marked (head_fault w.faults) _ (charge w) h (append_env-ne w.env);
}

move-Marked :
    (kernel : Kernel)
    → Ends Any Marked (mkdir_all (codes "/mnt") 0o755 >> (copy_fs kernel (codes "/mnt") >> handing))
unfolding Marked
move-Marked kernel =
    Ends-bind (λ e w h. tt) (mkdir_all (codes "/mnt") 0o755) _ (Any-Keeps _)
      λ _.
        Ends-then (EndedBy taking) Marked (λ e w h. tt) _ (λ _. handing-Marked)
          (copy_fs kernel (codes "/mnt")) (copy_fs-Ended kernel (codes "/mnt"))

asked-Marked :
    (kernel : Kernel) (kind : Signed)
    → Ends Any Marked (
        if is_in_memory kind
        then (mkdir_all (codes "/mnt") 0o755 >> (copy_fs kernel (codes "/mnt") >> handing))
        else pure false)
unfolding pure Marked
asked-Marked kernel kind = elim (Bool-cases (is_in_memory kind)) [
  | inl e ↦ rw e (move-Marked kernel)
  | inr n ↦ rw n (record { at = λ w h. tt })
]

pub relocate-Marked : (kernel : Kernel) (w : World) → let (r, v) = relocate kernel w in Marked r v
unfolding relocate getenv setenv Marked ◌>>=◌
relocate-Marked kernel w = elim (Bool-cases (same (w.env relocated) (codes "true"))) [
  | inl e ↦ rw e tt
  | inr n ↦ rw n (
      (Ends-bind (λ e w h. tt) kernel.statfs _ (Any-Keeps kernel.statfs) (asked-Marked kernel)).at w
        tt)
]
