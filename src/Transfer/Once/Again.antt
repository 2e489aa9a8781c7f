-- ===== src/Transfer/Once/Again.antt =====
-- How often a root is moved.
use edgi_os.Base.{
  Bytes, codes, ℕ, Bool, true, false, [], ◌∷◌, same, if◌then◌else◌, ◌≡◌, refl, arith, Bool-cases,
  inl, inr, bytes_discrete,
}
use edgi_os.Base.Strings.{Signed}
use mathlib.Core.Path.{subst}
use edgi_os.Base.Paths.{path_join}
use edgi_os.Os.World.{
  Result, ok, replaced, World, M, pure, emit, Fault, fine, fail, short, under_fault, head_fault,
  charge, ◌>>=◌, ◌>>◌,
}
use edgi_os.Os.Tree.{mkdir_all}
use edgi_os.Os.Process.{getenv, setenv, exec_env, append_env, mount, chdir}
use edgi_os.Os.Keeps.{Keeps, Keeps-bind, Keeps-pure, Keeps-raise, Keeps-attempt, Ends, Ends-bind}
use edgi_os.Os.Keeps.Env.{Set, env_rules, mkdir_all-Set, mount-Set, chdir-Set}
use edgi_os.Transfer.{
  Kernel, Status, Kind, directory_kind, regular_kind, symlink_kind, device_kind, pipe_kind,
  socket_kind, other_kind, Step, descend, skip_dir, Tree, unreadable, entry, Trees, no_tree, tree,
  walk, walk_below, relocate, relocated, next_init, is_in_memory, copy_metadata, copy_directory,
  move_regular, move_kind, move_file, remove_rest, take_root, copy_fs,
}
use edgi_os.Transfer.Once.{handing}

module _ {ℓ} {P : World → Type 0} {A : Type ℓ} where
  Keeps-if : (b : Bool) (m n : M A) → Keeps P m → Keeps P n → Keeps P (if b then m else n)
  Keeps-if true m n k l = k
  Keeps-if false m n k l = l

module _ {P : World → Type 0} (visit : Bytes → Status → M Step)
    (keeps : (path : Bytes) (s : Status) → Keeps P (visit path s)) where
  Keeps-step :
      (step : Step) (rest : M (Unit {0}))
      → Keeps P rest
      → Keeps P (elim step as (λ (x : Step). M (Unit {0})) [ descend ↦ rest | skip_dir ↦ pure tt ])
  Keeps-step descend rest k = k
  Keeps-step skip_dir rest k = Keeps-pure tt

  mutual
    unfolding walk walk_below

    walk-Keeps : (path : Bytes) (t : Tree) → Keeps P (walk visit path t)
    walk-Keeps path (unreadable e) = Keeps-raise e
    walk-Keeps path (entry s below) =
        Keeps-bind (visit path s) (keeps path s) _
          (λ step. Keeps-step step _ (walk_below-Keeps path below))

    walk_below-Keeps : (path : Bytes) (ts : Trees) → Keeps P (walk_below visit path ts)
    walk_below-Keeps path no_tree = Keeps-pure tt
    walk_below-Keeps path (tree name t ts) =
        Keeps-bind (walk visit (path_join (path ∷ name ∷ [])) t)
          (walk-Keeps (path_join (path ∷ name ∷ [])) t) _ (λ _. walk_below-Keeps path ts)

-- What the kernel's own calls do leaves the variable unset.
module _ (kernel : Kernel)
    (lchown-Set : (p : Bytes) (u g : ℕ) → Keeps (Set relocated []) (kernel.lchown p u g))
    (utimes-Set : (p : Bytes) (a m : ℕ) → Keeps (Set relocated []) (kernel.utimes p a m))
    (mkfifo-Set : (p : Bytes) (m : ℕ) → Keeps (Set relocated []) (kernel.mkfifo p m))
    (device-Set : Keeps (Set relocated []) kernel.root_device)
    (statfs-Set : Keeps (Set relocated []) kernel.statfs) where
  copy_metadata-Set : (s : Status) (p : Bytes) → Keeps (Set relocated []) (copy_metadata kernel s p)
  unfolding copy_metadata
  copy_metadata-Set s p =
      search (env_rules, lchown-Set, utimes-Set, Keeps-bind, Keeps-pure, Keeps-if) depth 30 fits
        5000

  copy_directory-Set :
      (new_root : Bytes) (dev : ℕ) (p : Bytes) (s : Status)
      → Keeps (Set relocated []) (copy_directory kernel new_root dev p s)
  unfolding copy_directory
  copy_directory-Set new_root dev p s =
      search (env_rules, copy_metadata-Set, Keeps-bind, Keeps-pure, Keeps-if) depth 30 fits 5000

  move_regular-Set :
      (p dest : Bytes) (m : ℕ) → Keeps (Set relocated []) (move_regular kernel p dest m)
  unfolding move_regular
  move_regular-Set p dest m =
      search (env_rules, Keeps-bind, Keeps-pure, Keeps-attempt) depth 30 fits 5000

  move_kind-Set :
      (k : Kind) (p dest : Bytes) (s : Status)
      → Keeps (Set relocated []) (move_kind kernel k p dest s)
  move_kind-Set directory_kind p dest s = Keeps-pure tt
  move_kind-Set regular_kind p dest s = move_regular-Set p dest s.mode
  move_kind-Set symlink_kind p dest s = search (env_rules, Keeps-bind) depth 30 fits 5000
  move_kind-Set device_kind p dest s = search env_rules
  move_kind-Set pipe_kind p dest s = mkfifo-Set dest s.mode
  move_kind-Set socket_kind p dest s = Keeps-raise _
  move_kind-Set other_kind p dest s = Keeps-raise _

  move_file-Set :
      (new_root : Bytes) (dev : ℕ) (p : Bytes) (s : Status)
      → Keeps (Set relocated []) (move_file kernel new_root dev p s)
  unfolding move_file
  move_file-Set new_root dev p s =
      search (move_kind-Set, copy_metadata-Set, Keeps-bind, Keeps-pure, Keeps-if) depth 30 fits 5000

  remove_rest-Set :
      (dev : ℕ) (p : Bytes) (s : Status) → Keeps (Set relocated []) (remove_rest kernel dev p s)
  unfolding remove_rest
  remove_rest-Set dev p s =
      search (env_rules, Keeps-attempt, Keeps-bind, Keeps-pure, Keeps-if) depth 30 fits 5000

  take_root-Set : Keeps (Set relocated []) (take_root kernel)
  unfolding take_root
  take_root-Set = search (env_rules, Keeps-bind) depth 30 fits 5000

  copy_fs-Set : (new_root : Bytes) → Keeps (Set relocated []) (copy_fs kernel new_root)
  unfolding copy_fs
  copy_fs-Set new_root = Keeps-bind kernel.root_device device-Set _ λ dev.
      Keeps-bind (mount (codes "rootfs") new_root (codes "tmpfs") 0 []) (mount-Set _ _ _ _ _) _ λ _.
        Keeps-bind (walk (copy_directory kernel new_root dev) (codes "/") kernel.directories)
          (walk-Keeps _ (copy_directory-Set new_root dev) (codes "/") kernel.directories) _
          λ _.
            Keeps-bind (walk (move_file kernel new_root dev) (codes "/") kernel.files)
              (walk-Keeps _ (move_file-Set new_root dev) (codes "/") kernel.files) _
              λ _. Keeps-bind (chdir new_root) (chdir-Set new_root) _ λ _.
                Keeps-bind (walk (remove_rest kernel dev) (codes "/") kernel.remains)
                  (walk-Keeps _ (remove_rest-Set dev) (codes "/") kernel.remains) _
                  λ _. take_root-Set

  -- The variable is set where the process was replaced.
  SetBy : Result Bool → World → Type 0
  SetBy (ok true) w = w.env relocated ≡ codes "true"
  SetBy _ w = Unit

  handed-SetBy :
      (f : Fault) (env : Bytes → Bytes) (w : World)
      → env relocated ≡ codes "true"
      → let (r, v) =
          (under_fault f (λ u. (
            ok (tt {0}),
            emit (replaced next_init (next_init ∷ []) env) (record u { env = env }),
          ))
              >> pure true)
            w in
        SetBy r v
  unfolding SetBy ◌>>=◌
  handed-SetBy fine env w h = h
  handed-SetBy (fail e) env w h = tt
  handed-SetBy (short n e) env w h = tt

  append_env-set :
      (env : Bytes → Bytes)
      → env relocated ≡ []
      → append_env relocated (codes "true") env relocated ≡ codes "true"
  unfolding append_env bytes_discrete
  append_env-set env h = rw h refl

  handing-SetBy : Ends (Set relocated []) SetBy handing
  unfolding exec_env ◌>>=◌
  handing-SetBy = record {
    at = λ w h. handed-SetBy (head_fault w.faults) _ (charge w) (append_env-set w.env h);
  }

  asked-SetBy :
      (kind : Signed)
      → Ends (Set relocated []) SetBy (
          if is_in_memory kind
          then (mkdir_all (codes "/mnt") 0o755 >> (copy_fs kernel (codes "/mnt") >> handing))
          else pure false)
  unfolding pure SetBy
  asked-SetBy kind = elim (Bool-cases (is_in_memory kind)) [
    | inl e ↦ rw e (
        Ends-bind (λ e w h. tt) (mkdir_all (codes "/mnt") 0o755) _ (mkdir_all-Set _ _)
          λ _.
            Ends-bind (λ e w h. tt) (copy_fs kernel (codes "/mnt")) _ (copy_fs-Set (codes "/mnt"))
              (λ _. handing-SetBy))
    | inr n ↦ rw n (record { at = λ w h. tt })
  ]

  relocate-SetBy : (w : World) → w.env relocated ≡ [] → let (r, v) = relocate kernel w in SetBy r v
  unfolding relocate getenv setenv SetBy ◌>>=◌ bytes_discrete
  relocate-SetBy w unset =
      let other : same (w.env relocated) (codes "true") ≡ false = rw unset refl in
      rw other ((Ends-bind (λ e w h. tt) kernel.statfs _ statfs-Set asked-SetBy).at w unset)

relocate-again :
    (kernel : Kernel) (w : World)
    → w.env relocated ≡ codes "true"
    → relocate kernel w
      ≡ (ok false, record w { env = λ j. if same relocated j then [] else w.env j })
unfolding relocate getenv setenv ◌>>=◌
relocate-again kernel w e =
    let moved : same (w.env relocated) (codes "true") ≡ true = ground arith in rw moved refl

-- Where the variable is not set at first, and the kernel's own calls leave it unset: a root is moved
-- at most once. When the move has replaced the process, the program that runs next moves nothing,
-- whatever the kernel then says of the file system; it unsets the variable and goes on.
pub relocate-once :
    (kernel next : Kernel) (w v : World)
    → ((p : Bytes) (u g : ℕ) → Keeps (Set relocated []) (kernel.lchown p u g))
    → ((p : Bytes) (a m : ℕ) → Keeps (Set relocated []) (kernel.utimes p a m))
    → ((p : Bytes) (m : ℕ) → Keeps (Set relocated []) (kernel.mkfifo p m))
    → Keeps (Set relocated []) kernel.root_device
    → Keeps (Set relocated []) kernel.statfs
    → w.env relocated ≡ []
    → relocate kernel w ≡ (ok true, v)
    → relocate next v ≡ (ok false, record v { env = λ j. if same relocated j then [] else v.env j })
unfolding SetBy
relocate-once kernel next w v lchown utimes mkfifo device statfs unset e = relocate-again next v (
    subst
      (λ (x : Result Bool × World).
        let (r, u) = x in SetBy kernel lchown utimes mkfifo device statfs r u)
      e (relocate-SetBy kernel lchown utimes mkfifo device statfs w unset))
