-- ===== src/Upgrade/Laws.antt =====
-- The lock of an upgrade.
use edgi_os.Base.{
  Bytes, ℕ, [], Option, none, some, ◌≡◌, ◌≢◌, refl, ap, arith, bytes_discrete, inl, inr, Bool-cases,
}
use edgi_os.Os.World.{
  Error, Result, ok, err, World, Node, file, directory, link, M, Fault, fine, fail, short,
  under_fault, head_fault, charge, ◌>>=◌,
}
use edgi_os.Os.Files.{stat, open_truncated, follow, max_links, store_at, is_directory}
use edgi_os.Os.Keeps.{Keeps, Ends, Keeps-bind, Keeps-pure, Keeps-raise, Ends-bind, Ends-then}
use edgi_os.Upgrade.{Options, upgrade, validate_system_root, need_directory}

module _ (w : World) (p : Bytes) where
  -- The state of `w` but for the faults.
  abbrev Same : World → Type 0
  Same v = (v.files ≡ w.files) × (v.trace ≡ w.trace)

  -- The state of `w` but for the faults and what stands behind `p`.
  abbrev SameBut : World → Type 0
  SameBut v =
      ((q : Bytes) → follow max_links w.files p ≢ some q → v.files q ≡ w.files q)
      × (v.trace ≡ w.trace)

  abbrev Locked {ℓ} : {A : Type ℓ} → Result A → World → Type ℓ
  Locked r v = ((e : Error) × (r ≡ err e)) × SameBut v

  stat-Same : (root : Bytes) → Keeps Same (stat root)
  unfolding stat follow
  stat-Same root = record { at = λ v (h, g). (ground arith, ground arith) }

  need_directory-Same : (root : Bytes) (n : Node) → Keeps Same (need_directory root n)
  need_directory-Same root (directory m) = Keeps-pure tt
  need_directory-Same root (file m s) = Keeps-raise _
  need_directory-Same root (link t) = Keeps-raise _

  validate_system_root-Same : (root : Bytes) → Keeps Same (validate_system_root root)
  unfolding validate_system_root
  validate_system_root-Same root =
      Keeps-bind (stat root) (stat-Same root) (need_directory root) (need_directory-Same root)

  store_at-SameBut :
      (perm : ℕ) (o : Option Bytes) (v : World)
      → follow max_links w.files p ≡ o
      → Same v
      → SameBut (store_at o [] perm (ok tt) v).1
  unfolding bytes_discrete
  store_at-SameBut perm none v e (h, g) = (λ q n. ap (λ f. f q) h, g)
  store_at-SameBut perm (some r) v e (h, g) = elim (Bool-cases (is_directory (v.files r))) [
    | inl y ↦ rw y (λ q n. ap (λ f. f q) h, g)
    | inr y ↦ rw y (λ q n. let o = ap (λ f. f q) h in ground arith, g)
  ]

  under_fault-SameBut :
      (perm : ℕ) (f : Fault) (v : World)
      → Same v
      → SameBut (under_fault f (λ u. store_at (follow max_links u.files p) [] perm (ok tt) u) v).1
  under_fault-SameBut perm fine v (h, g) =
      store_at-SameBut perm (follow max_links v.files p) v (rw h refl) (h, g)
  under_fault-SameBut perm (fail e) v (h, g) = (λ q n. ap (λ f. f q) h, g)
  under_fault-SameBut perm (short k e) v (h, g) = (λ q n. ap (λ f. f q) h, g)

  open_truncated-SameBut : (perm : ℕ) → Ends Same (λ r v. SameBut v) (open_truncated p perm)
  unfolding open_truncated
  open_truncated-SameBut perm = record {
    at = λ v h. under_fault-SameBut perm (head_fault v.faults) (charge v) h;
  }

  Same-SameBut : (v : World) → Same v → SameBut v
  Same-SameBut v (h, g) = (λ q n. ap (λ f. f q) h, g)

  stopped-Locked {ℓ κ} :
      {A : Type ℓ} {B : Type κ} (e : Error) (m : M A) (f : A → M B)
      → ((v : World) → m v ≡ (err e, v))
      → Ends SameBut Locked (m >>= f)
  unfolding ◌>>=◌
  stopped-Locked e m f stops = record { at = λ v h. rw (stops v) ((e, refl), h) }

module _ (copy : Bytes → Bytes → M (Unit {0}))
    (mount : Bytes → Bytes → Bytes → Bytes → M (Unit {0})) (flock unlock : Bytes → M (Unit {0}))
    (look_path : Bytes → M Bytes) (e : Error) (o : Options) (w : World)
    (taken : (v : World) → flock o.lock_file v ≡ (err e, v)) where
  abbrev Stopped {ℓ} : {A : Type ℓ} → Result A → World → Type ℓ
  Stopped r v = Locked w o.lock_file r v

  -- One root is checked, and the rest follows.
  validate-Locked {ℓ} :
      {B : Type ℓ} (root : Bytes) (f : Unit {0} → M B)
      → ((a : Unit {0}) → Ends (Same w o.lock_file) Stopped (f a))
      → Ends (Same w o.lock_file) Stopped (validate_system_root root >>= f)
  validate-Locked root f =
      Ends-bind (λ x v h. ((x, refl), Same-SameBut w o.lock_file v h)) (validate_system_root root) f
        (validate_system_root-Same w o.lock_file root)

  upgrade-Locked : Ends (Same w o.lock_file) Stopped (upgrade copy mount flock unlock look_path o)
  unfolding upgrade
  upgrade-Locked = validate-Locked o.source _ λ _. validate-Locked o.destination _ λ _.
      Ends-then (λ r v. SameBut w o.lock_file v) Stopped (λ x v h. ((x, refl), h)) _
        (λ _. stopped-Locked w o.lock_file e (flock o.lock_file) _ taken)
        (open_truncated o.lock_file 0o644) (open_truncated-SameBut w o.lock_file 0o644)

  -- An upgrade that cannot have the lock, because another upgrade holds it, fails, has asked nothing of the
  -- kernel or of other programs, and has changed no file but the one behind the name of the lock file.
  pub upgrade-locked :
      (q : Bytes)
      → follow max_links w.files o.lock_file ≢ some q
      → let (r, w') = upgrade copy mount flock unlock look_path o w in
        ((x : Error) × (r ≡ err x)) × (w'.files q ≡ w.files q) × (w'.trace ≡ w.trace)
  upgrade-locked q n =
      let (failed, same) = upgrade-Locked.at w (refl, refl) in (failed, same.0 q n, same.1)
