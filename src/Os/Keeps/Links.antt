-- ===== src/Os/Keeps/Links.antt =====
-- The calls that leave a symbolic link where it is.
use edgi_os.Base.{Bytes, ℕ, zero, suc, false, List, ◌++◌, Option, none, some}
use edgi_os.Base.{◌≡◌, ◌≢◌, refl, arith, bytes_discrete}
use edgi_os.Os.World.{
  Error, Result, ok, err, World, Node, file, directory, link, Files, M, lift, ◌>>=◌, log,
  under_fault, Fault, fine, fail, short, head_fault, charge,
}
use edgi_os.Os.Files.{stat, chmod, follow, link_path, max_links}
use edgi_os.Os.Tree.{
  remove, rename, remove_all, symlink, temp_dir, make_temp_dir, fresh_suffix, is_within,
}
use edgi_os.Util.Atomic.Laws.{fresh_suffix-free}
use edgi_os.Os.Keeps.{Keeps, Ends}

abbrev pub LinkAt : Bytes → Bytes → World → Type 0
LinkAt q t w = w.files q ≡ some (link t)

module _ {q t : Bytes} where
  pub stat-Keeps : (p : Bytes) → Keeps (LinkAt q t) (stat p)
  unfolding stat follow
  stat-Keeps p = record { at = λ w h. ground arith }

  pub log-Keeps : (s : Bytes) → Keeps (LinkAt q t) (log s)
  unfolding log
  log-Keeps s = record { at = λ w h. h }

  pub remove-Keeps : (p : Bytes) → p ≢ q → Keeps (LinkAt q t) (remove p)
  unfolding remove bytes_discrete
  remove-Keeps p n = record { at = λ w h. ground arith }

  pub symlink-Keeps : (s p : Bytes) → Keeps (LinkAt q t) (symlink s p)
  unfolding symlink bytes_discrete
  symlink-Keeps s p = record { at = λ w h. ground arith }

  pub rename-Keeps :
      (old new : Bytes)
      → is_within old q ≡ false
      → is_within new q ≡ false
      → Keeps (LinkAt q t) (rename old new)
  unfolding rename bytes_discrete
  rename-Keeps old new n k = record { at = λ w h. ground arith }

  pub remove_all-Keeps : (p : Bytes) → is_within p q ≡ false → Keeps (LinkAt q t) (remove_all p)
  unfolding remove_all bytes_discrete
  remove_all-Keeps p n = record { at = λ w h. ground arith }

  make_temp_dir-at :
      (prefix : Bytes) (w : World) (o : Option (Bytes × List Bytes))
      → fresh_suffix w.files prefix w.random ≡ o
      → LinkAt q t w
      → LinkAt q t (make_temp_dir prefix o w).1
  unfolding bytes_discrete
  make_temp_dir-at prefix w none e h = h
  make_temp_dir-at prefix w (some (r, rs)) e h =
      ground (arith, fresh_suffix-free w.files prefix r w.random rs e)

  under_fault-at :
      (prefix : Bytes) (w : World) (f : Fault)
      → LinkAt q t w
      → LinkAt q t
          (under_fault f (λ w. make_temp_dir prefix (fresh_suffix w.files prefix w.random) w) w).1
  under_fault-at prefix w fine h = make_temp_dir-at prefix w _ refl h
  under_fault-at prefix w (fail e) h = h
  under_fault-at prefix w (short n e) h = h

  pub temp_dir-Keeps : (prefix : Bytes) → Keeps (LinkAt q t) (temp_dir prefix)
  unfolding temp_dir
  temp_dir-Keeps prefix = record {
    at = λ w h. under_fault-at prefix (charge w) (head_fault w.faults) h;
  }

  -- One step of following links, by what stands at the path.
  follow_step-ne :
      (n : ℕ) (files : Files) (p r : Bytes) (o : Option Node)
      → ((p' : Bytes) → follow n files p' ≡ some r → r ≢ q)
      → files p ≡ o
      → files q ≡ some (link t)
      → elim o as (λ _. Option Bytes) [
        | some (link t') ↦ follow n files (link_path p t')
        | _ ↦ some p
      ]
        ≡ some r
      → r ≢ q
  follow_step-ne n files p r (some (link t')) k o h e = k (link_path p t') e
  follow_step-ne n files p r (some (file m s)) k o h e = ground arith
  follow_step-ne n files p r (some (directory m)) k o h e = ground arith
  follow_step-ne n files p r none k o h e = ground arith

  -- The path behind the links is no link.
  follow-ne :
      (n : ℕ) (files : Files) (p r : Bytes)
      → files q ≡ some (link t)
      → follow n files p ≡ some r
      → r ≢ q
  unfolding follow
  follow-ne zero files p r h e = cc
  follow-ne (suc n) files p r h e =
      follow_step-ne n files p r (files p) (λ p' e'. follow-ne n files p' r h e') refl h e

  pub chmod-Keeps : (p : Bytes) (m : ℕ) → Keeps (LinkAt q t) (chmod p m)
  unfolding chmod bytes_discrete
  chmod-Keeps p m = record {
    at = λ w h. ground (
      arith,
      λ (r : Bytes) (e : follow max_links w.files p ≡ some r). follow-ne max_links w.files p r h e,
    );
  }

-- What temp_dir draws is the prefix and more.
abbrev pub Extends : Bytes → Result Bytes → Type 0
Extends prefix (ok s) = (r : Bytes) × (s ≡ prefix ++ r)
Extends prefix (err e) = Unit

make_temp_dir-Extends :
    (prefix : Bytes) (w : World) (o : Option (Bytes × List Bytes))
    → Extends prefix (make_temp_dir prefix o w).0
make_temp_dir-Extends prefix w none = tt
make_temp_dir-Extends prefix w (some (r, rs)) = (r, refl)

under_fault-Extends :
    (prefix : Bytes) (w : World) (f : Fault)
    → Extends prefix
        (under_fault f (λ w. make_temp_dir prefix (fresh_suffix w.files prefix w.random) w) w).0
under_fault-Extends prefix w fine = make_temp_dir-Extends prefix w _
under_fault-Extends prefix w (fail e) = tt
under_fault-Extends prefix w (short n e) = tt

pub temp_dir-Extends : (prefix : Bytes) (w : World) → Extends prefix (temp_dir prefix w).0
unfolding temp_dir
temp_dir-Extends prefix w = under_fault-Extends prefix (charge w) (head_fault w.faults)

-- What follows a temp_dir has the name that was drawn.
module _ {ℓ κ μ} {B : Type ℓ} {P : World → Type κ} {Q : Result B → World → Type μ}
    (fails : (e : Error) (w : World) → P w → Q (err e) w) where
  temp_dir-continue :
      (prefix : Bytes) (f : Bytes → M B)
      → ((r : Bytes) → Ends P Q (f (prefix ++ r)))
      → (d : Result Bytes) → Extends prefix d
      → (w : World) → P w
      → let (r', w') = (lift d >>= f) w in Q r' w'
  unfolding ◌>>=◌
  temp_dir-continue prefix f kf (ok s) (r, e) w h = rw e ((kf r).at w h)
  temp_dir-continue prefix f kf (err e) _ w h = fails e w h

  pub Ends-temp_dir :
      (prefix : Bytes) (f : Bytes → M B)
      → Keeps P (temp_dir prefix)
      → ((r : Bytes) → Ends P Q (f (prefix ++ r)))
      → Ends P Q (temp_dir prefix >>= f)
  unfolding ◌>>=◌
  Ends-temp_dir prefix f k kf = record {
    at = λ w h.
        temp_dir-continue prefix f kf (temp_dir prefix w).0 (temp_dir-Extends prefix w)
          (temp_dir prefix w).1 (k.at w h);
  }
