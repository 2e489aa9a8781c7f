-- ===== src/Enter/Root/Names.antt =====
-- The root that findRoot finds has a name.
use edgi_os.Base.{
  Bytes, codes, ℕ, false, List, [], ◌∷◌, ◌++◌, is_empty, ◌≡◌, ◌≢◌, refl, arith, Bool-cases, inl,
  inr,
}
use edgi_os.Os.World.{Result, ok, err, call, continue, Node, World, M, pure, lift, attempt, ◌>>=◌}
use edgi_os.Os.Files.{stat}
use edgi_os.Os.Process.{getenv}
use edgi_os.Enter.Scan.{find_image}
use edgi_os.Enter.Host.{Host}
use edgi_os.Enter.Root.{find_root, beside, in_file}

append-ne : (s t : Bytes) → s ++ t ≡ [] → s ≡ []
append-ne [] t e = refl
append-ne (c ∷ s) t e = cc

not_empty : (s : Bytes) → is_empty s ≡ false → s ≢ []
not_empty s n e = ground arith

-- A root that was found has a name.
abbrev pub Named : Result (Bytes × ℕ) → Type 0
Named (ok (root, offset)) = root ≢ []
Named (err e) = Unit

Named-continue {ℓ} :
    {A : Type ℓ} (r : Result A) (f : A → M (Bytes × ℕ)) (w : World)
    → ((a : A) (v : World) → Named (f a v).0)
    → Named (continue r f w).0
Named-continue (ok a) f w k = k a w
Named-continue (err e) f w k = tt

Named-bind {ℓ} :
    {A : Type ℓ} (m : M A) (f : A → M (Bytes × ℕ)) (w : World)
    → ((a : A) (v : World) → Named (f a v).0)
    → Named ((m >>= f) w).0
unfolding ◌>>=◌
Named-bind m f w k = Named-continue (m w).0 f (m w).1 k

module _ (host : Host) (own : host.self ≢ []) (called : host.program ≢ []) where
  in_file-Named : (w : World) → Named (in_file host w).0
  unfolding in_file pure
  in_file-Named w = Named-bind (call (λ v. (ok (tt {0}), v))) _ w λ _ v.
      Named-bind (lift (find_image host.reads)) (λ offset. pure (host.self, offset)) v
        λ offset u. own

  program-ne : (suffix : Bytes) → host.program ++ suffix ≢ []
  program-ne suffix e = called (append-ne host.program suffix e)

  tried-Named :
      (p : Bytes) (others : M (Bytes × ℕ)) (found : Result Node) (w : World)
      → p ≢ []
      → ((v : World) → Named (others v).0)
      → Named
          (elim found as (λ (x : Result Node). M (Bytes × ℕ)) [
            | ok n ↦ pure (p, 0)
            | err e ↦ others
          ]
            w).0
  unfolding pure
  tried-Named p others (ok n) w n' h = n'
  tried-Named p others (err e) w n' h = h w

  beside-Named : (suffixes : List Bytes) (w : World) → Named (beside host suffixes w).0
  unfolding beside
  beside-Named [] w = in_file-Named w
  beside-Named (suffix ∷ suffixes) w =
      Named-bind (attempt (stat (host.program ++ suffix))) _ w λ found v.
        tried-Named (host.program ++ suffix) (beside host suffixes) found v (program-ne suffix)
          (beside-Named suffixes)

  pub find_root-Named : (w : World) → Named (find_root host w).0
  unfolding find_root ◌>>=◌ getenv pure
  find_root-Named w = elim (Bool-cases (is_empty (w.env (codes "ENTER_ROOT")))) [
    | inl e ↦ rw e (beside-Named (codes ".root" ∷ codes ".squashfs" ∷ []) w)
    | inr n ↦ rw n (not_empty (w.env (codes "ENTER_ROOT")) n)
  ]
