-- ===== src/Transfer/Own.antt =====
-- Where the walks of the move of a root go: not below a directory of another file system.
use edgi_os.Transfer.Walks.{
  is_foreign, own_part, Everywhere, EverywhereBelow, after, walk-own, walk_below-own,
}
use edgi_os.Base.{
  Bytes, codes, ℕ, ◌==◌, true, false, [], ◌∷◌, same, ◌≡◌, ◌≢◌, refl, ap, sym, arith, ◌∙◌,
  Bool-cases, inl, inr,
}
use edgi_os.Base.Paths.{path_join}
use edgi_os.Os.World.{Result, ok, err, World, M, pure, continue, ◌>>=◌, ◌>>◌}
use edgi_os.Transfer.{
  Kernel, Status, Step, descend, skip_dir, Tree, unreadable, entry, Trees, no_tree, tree, is_dir,
  walk, copy_directory, move_file, remove_rest, take_root, copy_fs,
}
use edgi_os.Os.Process.{mount, chdir}

foreign-parts :
    (dev : ℕ) (s : Status)
    → is_foreign dev s ≡ true
    → (is_dir s.kind ≡ true) × ((dev == s.dev) ≡ false)
foreign-parts dev s e = elim (Bool-cases (is_dir s.kind)) [
  | inl y ↦ (y, ground arith)
  | inr n ↦ (ground arith, ground arith)
]

-- An action whose last step does not go down.
continue-stops {ℓ} :
    {A : Type ℓ} (r : Result A) (f : A → M Step) (w : World)
    → ((a : A) (v : World) → (f a v).0 ≢ ok descend)
    → (continue r f w).0 ≢ ok descend
continue-stops (ok a) f w k = k a w
continue-stops (err x) f w k = λ e. cc

bind-stops {ℓ} :
    {A : Type ℓ} (m : M A) (f : A → M Step) (w : World)
    → ((a : A) (v : World) → (f a v).0 ≢ ok descend)
    → ((m >>= f) w).0 ≢ ok descend
unfolding ◌>>=◌
bind-stops m f w k = continue-stops (m w).0 f (m w).1 k

pure-stops : (w : World) → (pure skip_dir w).0 ≢ ok descend
unfolding pure
pure-stops w e = cc

module _ (kernel : Kernel) (new_root : Bytes) (dev : ℕ) where
  copy_directory-skips :
      (path : Bytes) (s : Status) (w : World)
      → Unit {0}
      → is_foreign dev s ≡ true
      → (copy_directory kernel new_root dev path s w).0 ≢ ok descend
  unfolding copy_directory
  copy_directory-skips path s w _ e =
      let (d, n) = foreign-parts dev s e in
      rw (d, n) (bind-stops _ _ w (λ _ v. bind-stops _ _ v (λ _ u. pure-stops u)))

  move_file-skips :
      (path : Bytes) (s : Status) (w : World)
      → Unit {0}
      → is_foreign dev s ≡ true
      → (move_file kernel new_root dev path s w).0 ≢ ok descend
  unfolding move_file
  move_file-skips path s w _ e = let (d, n) = foreign-parts dev s e in rw (d, n) (pure-stops w)

  remove_rest-skips :
      (path : Bytes) (s : Status) (w : World)
      → path ≢ codes "/"
      → is_foreign dev s ≡ true
      → (remove_rest kernel dev path s w).0 ≢ ok descend
  unfolding remove_rest
  remove_rest-skips path s w n e =
      let (d, o) = foreign-parts dev s e in
      let elsewhere : same path (codes "/") ≡ false = ground arith in
      rw elsewhere (rw (d, o) (pure-stops w))

mutual
  everywhere : (path : Bytes) (t : Tree) → Everywhere (λ p. Unit) path t
  everywhere path (unreadable e) = tt
  everywhere path (entry s below) = (tt, everywhere_below path below)

  everywhere_below : (path : Bytes) (ts : Trees) → EverywhereBelow (λ p. Unit) path ts
  everywhere_below path no_tree = tt
  everywhere_below path (tree name t ts) =
      (everywhere (path_join (path ∷ name ∷ [])) t, everywhere_below path ts)

-- The machine as it is where the other file systems are empty.
pub own_kernel : ℕ → Kernel → Kernel
own_kernel dev kernel = record kernel {
  directories = own_part dev kernel.directories;
  files = own_part dev kernel.files;
  remains = own_part dev kernel.remains;
}

module _ (kernel : Kernel) (new_root : Bytes) (dev : ℕ) where
  directories-own :
      walk (copy_directory kernel new_root dev) (codes "/") kernel.directories
      ≡ walk (copy_directory kernel new_root dev) (codes "/") (own_part dev kernel.directories)
  directories-own =
      walk-own (copy_directory kernel new_root dev) dev (λ p. Unit)
        (copy_directory-skips kernel new_root dev) (codes "/") kernel.directories
        (everywhere (codes "/") kernel.directories)

  files-own :
      walk (move_file kernel new_root dev) (codes "/") kernel.files
      ≡ walk (move_file kernel new_root dev) (codes "/") (own_part dev kernel.files)
  files-own =
      walk-own (move_file kernel new_root dev) dev (λ p. Unit) (move_file-skips kernel new_root dev)
        (codes "/") kernel.files (everywhere (codes "/") kernel.files)

  remains-own :
      (root : Status) (below : Trees)
      → root.dev ≡ dev
      → EverywhereBelow (λ p. p ≢ codes "/") (codes "/") below
      → walk (remove_rest kernel dev) (codes "/") (entry root below)
        ≡ walk (remove_rest kernel dev) (codes "/") (own_part dev (entry root below))
  unfolding walk own_part
  remains-own root below d h =
      let home : is_foreign dev root ≡ false = ground arith in
      rw home (
        ap
          (λ (rest : M (Unit {0})).
            after (remove_rest kernel dev) dev (λ p. p ≢ codes "/")
              (remove_rest-skips kernel new_root dev) (codes "/") root rest)
          (walk_below-own (remove_rest kernel dev) dev (λ p. p ≢ codes "/")
            (remove_rest-skips kernel new_root dev) (codes "/") below h))

  -- What follows the mount, by its three walks.
  abbrev walks : M (Unit {0}) → M (Unit {0}) → M (Unit {0}) → M (Unit {0})
  walks one two three =
      mount (codes "rootfs") new_root (codes "tmpfs") 0 []
      >> (one >> (two >> (chdir new_root >> (three >> take_root kernel))))

  copy_fs-walks :
      (w v : World)
      → kernel.root_device w ≡ (ok dev, v)
      → copy_fs kernel new_root w
        ≡ walks
            (walk (copy_directory kernel new_root dev) (codes "/") kernel.directories)
            (walk (move_file kernel new_root dev) (codes "/") kernel.files)
            (walk (remove_rest kernel dev) (codes "/") kernel.remains)
            v
  unfolding copy_fs ◌>>=◌
  copy_fs-walks w v e = rw e refl

  own-walks :
      (w v : World)
      → kernel.root_device w ≡ (ok dev, v)
      → copy_fs (own_kernel dev kernel) new_root w
        ≡ walks
            (walk
              (copy_directory kernel new_root dev)
              (codes "/")
              (own_part dev kernel.directories))
            (walk (move_file kernel new_root dev) (codes "/") (own_part dev kernel.files))
            (walk (remove_rest kernel dev) (codes "/") (own_part dev kernel.remains))
            v
  unfolding copy_fs own_kernel copy_directory move_file remove_rest take_root ◌>>=◌
  own-walks w v e = rw e refl

-- Where `/` is on the device that os.Stat tells and stands nowhere below itself, the move to the new
-- root has the same result and leaves the same state whatever stands below directories of other file
-- systems in the trees that the walks meet. It does not say what os.RemoveAll takes.
pub copy_fs-own :
    (kernel : Kernel) (new_root : Bytes) (dev : ℕ) (root : Status) (below : Trees) (w v : World)
    → kernel.root_device w ≡ (ok dev, v)
    → kernel.remains ≡ entry root below
    → root.dev ≡ dev
    → EverywhereBelow (λ p. p ≢ codes "/") (codes "/") below
    → copy_fs kernel new_root w ≡ copy_fs (own_kernel dev kernel) new_root w
copy_fs-own kernel new_root dev root below w v e r d h =
    let removed : walk (remove_rest kernel dev) (codes "/") kernel.remains
        ≡ walk (remove_rest kernel dev) (codes "/") (own_part dev kernel.remains) =
      simp r (remains-own kernel new_root dev root below d h) in
    copy_fs-walks kernel new_root dev w v e
    ∙ ((λ i.
          walks kernel new_root dev (directories-own kernel new_root dev i)
            (files-own kernel new_root dev i) (removed i) v)
        ∙ sym (own-walks kernel new_root dev w v e))
