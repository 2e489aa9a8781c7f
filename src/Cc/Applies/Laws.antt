-- ===== src/Cc/Applies/Laws.antt =====
-- What a phase does as a whole.
use mathlib.Core.List.{foldl}
use edgi_os.Base.{List, [], ◌∷◌, Option, none, some, ◌≡◌, refl, arith}
use edgi_os.Os.World.{Error, Result, ok, err, World}
use edgi_os.Config.Types.{CloudConfig}
use edgi_os.Cc.Applies.{Applier, collect_errors, multi_error, run_applies}

-- The results of the appliers, each on what the ones before it left.
pub results : CloudConfig → List Applier → World → List (Result (Unit {0}))
results cfg [] w = []
results cfg (a ∷ more) w = (a cfg w).0 ∷ results cfg more (a cfg w).1

pub errors_of : List (Result (Unit {0})) → List Error
errors_of [] = []
errors_of (ok _ ∷ rs) = errors_of rs
errors_of (err e ∷ rs) = e ∷ errors_of rs

collect_errors_lem :
    (cfg : CloudConfig) (appliers : List Applier) (w : World)
    → collect_errors cfg appliers w
      ≡ (errors_of (results cfg appliers w), foldl (λ v a. (a cfg v).1) w appliers)
unfolding collect_errors errors_of results
collect_errors_lem cfg [] w = refl
collect_errors_lem cfg (a ∷ more) w = ground (arith, collect_errors_lem cfg more (a cfg w).1)

-- The outcome that stands for these errors.
pub IsOutcome : List Error → Option (List Error) → Type 0
IsOutcome [] o = o ≡ none
IsOutcome (e ∷ es) o = o ≡ some (e ∷ es)

multi_error-IsOutcome : (errors : List Error) → IsOutcome errors (multi_error errors)
unfolding IsOutcome
multi_error-IsOutcome [] = refl
multi_error-IsOutcome (e ∷ es) = refl

-- Every applier of a phase runs, in the order of the list, on what the ones before it left, whether
-- or not those failed; the outcome holds their errors in that order, and is nil if there are none.
pub run_applies-runs_all :
    (cfg : CloudConfig) (appliers : List Applier) (w : World)
    → let (outcome, w') = run_applies cfg appliers w in
      IsOutcome (errors_of (results cfg appliers w)) outcome
      × (w' ≡ foldl (λ v a. (a cfg v).1) w appliers)
unfolding run_applies
run_applies-runs_all cfg appliers w =
    rw (collect_errors_lem cfg appliers w)
      (multi_error-IsOutcome (errors_of (results cfg appliers w)), refl)
