-- ===== src/Transfer/Remains.antt =====
-- What the third walk of the move of a root removes.
use edgi_os.Base.{
  Bytes, codes, ℕ, ◌==◌, Bool, true, false, [], ◌∷◌, Option, same, ◌≡◌, ◌≢◌, refl, arith,
  Bool-cases, inl, inr, bytes_discrete,
}
use edgi_os.Base.Paths.{path_join}
use edgi_os.Os.World.{Node, World, pure, attempt, ◌>>=◌}
use edgi_os.Os.Tree.{remove, remove_all, is_within}
use edgi_os.Os.Keeps.{Keeps, Keeps-bind, Keeps-pure, Keeps-raise}
use edgi_os.Transfer.{
  Kernel, Tree, unreadable, entry, Trees, no_tree, tree, is_dir, walk, walk_below, remove_rest,
}

-- That an entry leaves the path `q`, by whether the entry is `/`, whether it is a directory, and whether
-- it is on the device of the root; `below` says it of what stands below the entry.
SparedAt : Bool → Bool → Bool → Bytes → Bytes → Type 0 → Type 0
SparedAt true d o p q below = below
SparedAt false false o p q below = (q ≢ p) × below
SparedAt false true true p q below = is_within p q ≡ false
SparedAt false true false p q below = Unit

-- No directory of the root's own device but `/` contains the path, and no entry of another kind stands at
-- it, as far as the walk comes: it does not go down in directories other than `/`.
unfoldable mutual
  unfolding SparedAt

  pub Spared : ℕ → Bytes → Bytes → Tree → Type 0
  Spared dev q path (unreadable e) = Unit
  Spared dev q path (entry s below) =
      SparedAt (same path (codes "/")) (is_dir s.kind) (dev == s.dev) path q
        (SparedBelow dev q path below)

  pub SparedBelow : ℕ → Bytes → Bytes → Trees → Type 0
  SparedBelow dev q path no_tree = Unit
  SparedBelow dev q path (tree name t ts) =
      Spared dev q (path_join (path ∷ name ∷ [])) t × SparedBelow dev q path ts

abbrev At : Bytes → Option Node → World → Type 0
At q o w = w.files q ≡ o

module _ (kernel : Kernel) (dev : ℕ) (q : Bytes) (o : Option Node) where
  remove-At : (p : Bytes) → q ≢ p → Keeps (At q o) (remove p)
  unfolding remove bytes_discrete
  remove-At p n = record { at = λ w h. ground arith }

  remove_all-At : (p : Bytes) → is_within p q ≡ false → Keeps (At q o) (remove_all p)
  unfolding remove_all
  remove_all-At p n = record { at = λ w h. ground arith }

  mutual
    unfolding walk walk_below remove_rest Spared SparedBelow ◌>>=◌ pure attempt

    walk-At :
        (p : Bytes) (t : Tree)
        → Spared dev q p t
        → Keeps (At q o) (walk (remove_rest kernel dev) p t)
    walk-At p (unreadable e) h = Keeps-raise e
    walk-At p (entry s below) h = elim (Bool-cases (same p (codes "/"))) [
      | inl root ↦ rw root (record { at = (walk_below-At p below (rw root at h)).at })
      | inr inner ↦ elim (Bool-cases (is_dir s.kind)) [
        | inl dir ↦ elim (Bool-cases (dev == s.dev)) [
          | inl own ↦
              rw (inner, dir, own)
                (record { at = (remove_all-At p (rw (inner, dir, own) at h)).at })
          | inr foreign ↦ rw (inner, dir, foreign) (record { at = λ w g. g })
        ]
        | inr other ↦
            let (apart, rest) = rw (inner, other) at h in
            rw (inner, other)
              (record {
                at = λ w g.
                    (walk_below-At p below rest).at (remove p w).1 ((remove-At p apart).at w g);
              })
      ]
    ]

    walk_below-At :
        (p : Bytes) (ts : Trees)
        → SparedBelow dev q p ts
        → Keeps (At q o) (walk_below (remove_rest kernel dev) p ts)
    walk_below-At p no_tree h = Keeps-pure tt
    walk_below-At p (tree name t ts) (h, hs) =
        Keeps-bind (walk (remove_rest kernel dev) (path_join (p ∷ name ∷ [])) t)
          (walk-At (path_join (p ∷ name ∷ [])) t h) _ (λ _. walk_below-At p ts hs)

-- Under any faults, the walk that removes leaves a path as it is where it meets no directory of the
-- root's own device, other than `/`, that contains the path, and no entry of another kind at the path.
-- So a file system that is mounted in `/` itself stays whole.
pub remove_walk-spares :
    (kernel : Kernel) (dev : ℕ) (t : Tree) (q : Bytes) (w : World)
    → Spared dev q (codes "/") t
    → (walk (remove_rest kernel dev) (codes "/") t w).1.files q ≡ w.files q
remove_walk-spares kernel dev t q w h = (walk-At kernel dev q (w.files q) (codes "/") t h).at w refl
