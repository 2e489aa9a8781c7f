-- ===== src/Transfer/Walks.antt =====
-- Walks of pkg/transferroot/transferroot.go that do not go down in directories of other file systems.
use edgi_os.Base.{
  Bytes, ℕ, ◌==◌, Bool, true, not, ◌&&◌, [], ◌∷◌, if◌then◌else◌, ◌≡◌, ◌≢◌, refl, ap, ◌∙◌,
  Bool-cases, inl, inr,
}
use edgi_os.Base.Paths.{path_join}
use edgi_os.Os.World.{Result, ok, err, World, M, pure, continue, ◌>>=◌, ◌>>◌}
use edgi_os.Transfer.{
  Status, Step, descend, skip_dir, Tree, unreadable, entry, Trees, no_tree, tree, is_dir, walk,
  walk_below,
}
use mathlib.Core.Path.{fun_ext}

abbrev pub is_foreign : ℕ → Status → Bool
is_foreign dev s = is_dir s.kind && not (dev == s.dev)

-- The part of a tree on the device `dev`: the mount points in it stay, with nothing below them.
unfoldable mutual
  pub own_part : ℕ → Tree → Tree
  own_part dev (unreadable e) = unreadable e
  own_part dev (entry s below) =
      let rest = own_parts dev below in if is_foreign dev s then entry s no_tree else entry s rest

  pub own_parts : ℕ → Trees → Trees
  own_parts dev no_tree = no_tree
  own_parts dev (tree name t ts) = tree name (own_part dev t) (own_parts dev ts)

-- Every path that a walk may visit has the property.
abbrev mutual
  pub Everywhere : (Bytes → Type 0) → Bytes → Tree → Type 0
  Everywhere P path (unreadable e) = Unit
  Everywhere P path (entry s below) = P path × EverywhereBelow P path below

  pub EverywhereBelow : (Bytes → Type 0) → Bytes → Trees → Type 0
  EverywhereBelow P path no_tree = Unit
  EverywhereBelow P path (tree name t ts) =
      Everywhere P (path_join (path ∷ name ∷ [])) t × EverywhereBelow P path ts

module _ (visit : Bytes → Status → M Step) (dev : ℕ) (P : Bytes → Type 0)
    (skips : (path : Bytes) (s : Status) (w : World)
      → P path
      → is_foreign dev s ≡ true
      → (visit path s w).0 ≢ ok descend) where
  -- After a visit that does not go down, what stands below does not count.
  stop-same :
      (r : Result Step) (rest other : M (Unit {0})) (w : World)
      → r ≢ ok descend
      → continue r
          (λ step. elim step as (λ (x : Step). M (Unit {0})) [
            | descend ↦ rest
            | skip_dir ↦ pure tt
          ])
          w
        ≡ continue r
            (λ step. elim step as (λ (x : Step). M (Unit {0})) [
              | descend ↦ other
              | skip_dir ↦ pure tt
            ])
            w
  stop-same (ok descend) rest other w n = absurd (n refl)
  stop-same (ok skip_dir) rest other w n = refl
  stop-same (err e) rest other w n = refl

  abbrev pub after : Bytes → Status → M (Unit {0}) → M (Unit {0})
  after path s rest = visit path s >>= λ step. elim step as (λ (x : Step). M (Unit {0})) [
    | descend ↦ rest
    | skip_dir ↦ pure tt
  ]

  mutual
    unfolding walk walk_below own_part own_parts ◌>>=◌

    pub walk-own :
        (path : Bytes) (t : Tree)
        → Everywhere P path t
        → walk visit path t ≡ walk visit path (own_part dev t)
    walk-own path (unreadable e) h = refl
    walk-own path (entry s below) (p, h) = elim (Bool-cases (is_foreign dev s)) [
      | inl e ↦ rw e (
          fun_ext λ w.
            stop-same (visit path s w).0 (walk_below visit path below)
              (walk_below visit path no_tree) (visit path s w).1 (skips path s w p e))
      | inr n ↦ rw n (ap (λ (rest : M (Unit {0})). after path s rest) (walk_below-own path below h))
    ]

    pub walk_below-own :
        (path : Bytes) (ts : Trees)
        → EverywhereBelow P path ts
        → walk_below visit path ts ≡ walk_below visit path (own_parts dev ts)
    walk_below-own path no_tree h = refl
    walk_below-own path (tree name t ts) (h, hs) =
        ap (λ (m : M (Unit {0})). m >> walk_below visit path ts)
          (walk-own (path_join (path ∷ name ∷ [])) t h)
        ∙ ap (λ (m : M (Unit {0})). walk visit (path_join (path ∷ name ∷ [])) (own_part dev t) >> m)
            (walk_below-own path ts hs)
