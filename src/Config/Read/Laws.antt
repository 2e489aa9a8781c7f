-- ===== src/Config/Read/Laws.antt =====
-- The order in which the sources of the configuration count.
use mathlib.Core.List.{foldl}
use edgi_os.Base.{List, [], ◌∷◌, ◌≡◌, refl, inl, inr, ◌∙◌}
use edgi_os.Os.World.{Result, ok, err, World, M, pure, lift, ◌>>=◌}
use edgi_os.Os.Faults.{Outcome-cases}
use edgi_os.Config.Values.{Fields, no_field}
use edgi_os.Config.Read.{Library, Reader, merge_from, merge}

module _ (lib : Library) where
  -- What the readers bring, in the schema's names, and the first error in place of it.
  pub collected : List Reader → M (List Fields)
  collected [] = pure []
  collected (r ∷ readers) =
      let rest = collected readers in
      do new_data ← r; mapped ← lift (lib.to_internal new_data); more ← rest; pure (mapped ∷ more)

  mapped-fold :
      (readers : List Reader) (merged : Fields) (r : Result Fields) (w : World)
      → ((m : Fields)
          → merge_from lib readers m w
            ≡ (collected readers >>= (λ all. pure (foldl lib.update_merge m all))) w)
      → (lift r >>= (λ m. merge_from lib readers (lib.update_merge merged m))) w
        ≡ ((lift r >>= (λ m. collected readers >>= (λ more. pure (m ∷ more))))
              >>= (λ all. pure (foldl lib.update_merge merged all)))
            w
  unfolding ◌>>=◌
  mapped-fold readers merged (ok m) w ih =
      ih (lib.update_merge merged m) ∙ (elim (Outcome-cases (collected readers w)) [
        | inl (ms, x, e) ↦ rw e refl
        | inr (f, x, e) ↦ rw e refl
      ])
  mapped-fold readers merged (err e) w ih = refl

  merge_from-fold :
      (readers : List Reader) (merged : Fields) (w : World)
      → merge_from lib readers merged w
        ≡ (collected readers >>= (λ all. pure (foldl lib.update_merge merged all))) w
  unfolding merge_from collected ◌>>=◌
  merge_from-fold [] merged w = refl
  merge_from-fold (r ∷ readers) merged w = elim (Outcome-cases (r w)) [
    | inl (d, x, e) ↦
        rw e (mapped-fold readers merged (lib.to_internal d) x (λ m. merge_from-fold readers m x))
    | inr (f, x, e) ↦ rw e refl
  ]

  -- Merging the readers is reading all of them in order, up to the first error, and then merging
  -- what they brought from the first to the last.
  pub merge-fold :
      (readers : List Reader) (w : World)
      → merge lib readers w
        ≡ (collected readers >>= (λ all. pure (foldl lib.update_merge no_field all))) w
  unfolding merge
  merge-fold readers w = merge_from-fold readers no_field w
