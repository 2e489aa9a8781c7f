-- ===== src/Os/Keeps/Env.antt =====
-- The calls that leave the environment as it is.
use edgi_os.Base.{Bytes, ℕ, List, [], ◌∷◌, some, ◌≡◌, ◌∙◌, refl, arith}
use edgi_os.Os.World.{World, directory, Fault, fine, fail, short, under_fault, head_fault, charge}
use edgi_os.Os.Files.{read_file, readlink, open_truncated, write_open, close, chmod, update}
use edgi_os.Os.Tree.{mkdir, mkdir_all, make_all, ancestors, symlink, mknod, remove, remove_all}
use edgi_os.Os.Process.{mount, chdir, chroot}
use edgi_os.Os.Keeps.{Keeps}

-- The variable has this value.
abbrev pub Set : Bytes → Bytes → World → Type 0
Set k v w = w.env k ≡ v

make_all-env :
    (k : Bytes) (ps : List Bytes) (m : ℕ) (w : World) → (make_all ps m w).1.env k ≡ w.env k
unfolding make_all
make_all-env k [] m w = refl
make_all-env k (p ∷ ps) m w = ground (
  arith,
  make_all-env k ps m w,
  make_all-env k ps m (record w { files = update w.files p (some (directory (w.mask m))) }),
)

module _ {k v : Bytes} where
  pub read_file-Set : (p : Bytes) → Keeps (Set k v) (read_file p)
  unfolding read_file
  read_file-Set p = record { at = λ w h. ground arith }

  pub readlink-Set : (p : Bytes) → Keeps (Set k v) (readlink p)
  unfolding readlink
  readlink-Set p = record { at = λ w h. ground arith }

  pub open_truncated-Set : (p : Bytes) (m : ℕ) → Keeps (Set k v) (open_truncated p m)
  unfolding open_truncated
  open_truncated-Set p m = record { at = λ w h. ground arith }

  pub write_open-Set : (p s : Bytes) → Keeps (Set k v) (write_open p s)
  unfolding write_open
  write_open-Set p s = record { at = λ w h. ground arith }

  pub close-Set : (p : Bytes) → Keeps (Set k v) (close p)
  unfolding close
  close-Set p = record { at = λ w h. ground arith }

  pub chmod-Set : (p : Bytes) (m : ℕ) → Keeps (Set k v) (chmod p m)
  unfolding chmod
  chmod-Set p m = record { at = λ w h. ground arith }

  pub mkdir-Set : (p : Bytes) (m : ℕ) → Keeps (Set k v) (mkdir p m)
  unfolding mkdir
  mkdir-Set p m = record { at = λ w h. ground arith }

  under_fault-Set :
      (f : Fault) (ps : List Bytes) (m : ℕ) (w : World)
      → Set k v w
      → Set k v (under_fault f (λ u. make_all ps m u) w).1
  under_fault-Set fine ps m w h = make_all-env k ps m w ∙ h
  under_fault-Set (fail e) ps m w h = h
  under_fault-Set (short n e) ps m w h = h

  pub mkdir_all-Set : (p : Bytes) (m : ℕ) → Keeps (Set k v) (mkdir_all p m)
  unfolding mkdir_all
  mkdir_all-Set p m = record {
    at = λ w h. under_fault-Set (head_fault w.faults) (ancestors p) m (charge w) h;
  }

  pub symlink-Set : (s p : Bytes) → Keeps (Set k v) (symlink s p)
  unfolding symlink
  symlink-Set s p = record { at = λ w h. ground arith }

  pub mknod-Set : (p : Bytes) (m d : ℕ) → Keeps (Set k v) (mknod p m d)
  unfolding mknod
  mknod-Set p m d = record { at = λ w h. ground arith }

  pub remove-Set : (p : Bytes) → Keeps (Set k v) (remove p)
  unfolding remove
  remove-Set p = record { at = λ w h. ground arith }

  pub remove_all-Set : (p : Bytes) → Keeps (Set k v) (remove_all p)
  unfolding remove_all
  remove_all-Set p = record { at = λ w h. ground arith }

  pub mount-Set : (s t f : Bytes) (n : ℕ) (o : Bytes) → Keeps (Set k v) (mount s t f n o)
  unfolding mount
  mount-Set s t f n o = record { at = λ w h. ground arith }

  pub chdir-Set : (p : Bytes) → Keeps (Set k v) (chdir p)
  unfolding chdir
  chdir-Set p = record { at = λ w h. ground arith }

  pub chroot-Set : (p : Bytes) → Keeps (Set k v) (chroot p)
  unfolding chroot
  chroot-Set p = record { at = λ w h. ground arith }

pub ruleset env_rules = (
  read_file-Set, readlink-Set, open_truncated-Set, write_open-Set, close-Set, chmod-Set, mkdir-Set,
  mkdir_all-Set, symlink-Set, mknod-Set, remove-Set, remove_all-Set, mount-Set, chdir-Set,
  chroot-Set,
)
