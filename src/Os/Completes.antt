-- ===== src/Os/Completes.antt =====
-- Actions that return a value from every state, whatever fails: a rule for each way to build one.
use edgi_os.Base.{Bool, true, false, List, [], ◌∷◌, if◌then◌else◌, ◌≡◌, refl}
use edgi_os.Os.World.{Result, ok, err, World, M, pure, attempt, log, ◌>>=◌, for_each}
use edgi_os.Os.Logged.{logged, ignored, log_failure}

pub record Completes {ℓ} {A : Type ℓ} (m : M A) : Type ℓ where
  pub at : (w : World) → (a : A) × ((m w).0 ≡ ok a)

pub Completes-pure {ℓ} : {A : Type ℓ} (a : A) → Completes (pure a)
unfolding pure
Completes-pure a = record { at = λ w. (a, refl) }

pub Completes-attempt {ℓ} : {A : Type ℓ} (m : M A) → Completes (attempt m)
unfolding attempt
Completes-attempt m = record { at = λ w. ((m w).0, refl) }

pub Completes-log : (s : List _) → Completes (log s)
unfolding log
Completes-log s = record { at = λ w. (tt, refl) }

pub Completes-if {ℓ} :
    {A : Type ℓ} (b : Bool) (m n : M A) → Completes m → Completes n → Completes (if b then m else n)
Completes-if true m n km kn = km
Completes-if false m n km kn = kn

pub Completes-bind {ℓ κ} :
    {A : Type ℓ} {B : Type κ} (m : M A) (f : A → M B)
    → Completes m
    → ((a : A) → Completes (f a))
    → Completes (m >>= f)
unfolding ◌>>=◌
Completes-bind m f km kf = record { at = λ w. let (a, e) = km.at w in rw e ((kf a).at (m w).1) }

pub Completes-log_failure {ℓ} : {A : Type ℓ} (r : Result A) → Completes (log_failure r)
Completes-log_failure (ok a) = Completes-pure tt
Completes-log_failure (err e) = Completes-log _

pub Completes-logged {ℓ} : {A : Type ℓ} (m : M A) → Completes (logged m)
Completes-logged m =
    Completes-bind (attempt m) log_failure (Completes-attempt m) Completes-log_failure

pub Completes-ignored {ℓ} : {A : Type ℓ} (m : M A) → Completes (ignored m)
Completes-ignored m = Completes-bind (attempt m) _ (Completes-attempt m) (λ _. Completes-pure tt)

pub Completes-for_each {ℓ} :
    {A : Type ℓ} (xs : List A) (f : A → M (Unit {0}))
    → ((a : A) → Completes (f a))
    → Completes (for_each xs f)
unfolding for_each
Completes-for_each [] f k = Completes-pure tt
Completes-for_each (x ∷ xs) f k = Completes-bind (f x) _ (k x) (λ _. Completes-for_each xs f k)

pub ruleset completes_rules = (
  Completes-pure, Completes-attempt, Completes-log, Completes-if, Completes-bind, Completes-logged,
  Completes-ignored, Completes-for_each,
)

-- An action that returns a value with a property from every state, whatever fails.
pub record Yields {ℓ κ} {A : Type ℓ} (P : A → Type κ) (m : M A) : Type (ℓ ⊔ κ) where
  pub at : (w : World) → (a : A) × ((m w).0 ≡ ok a) × P a

pub Yields-pure {ℓ κ} : {A : Type ℓ} {P : A → Type κ} (a : A) → P a → Yields P (pure a)
unfolding pure
Yields-pure a p = record { at = λ w. (a, refl, p) }

module _ {ℓ κ μ} {A : Type ℓ} {B : Type κ} {Q : B → Type μ} where
  -- An attempt comes to some result.
  pub Yields-attempt :
      (m : M A) (f : Result A → M B)
      → ((r : Result A) → Yields Q (f r))
      → Yields Q (attempt m >>= f)
  unfolding attempt ◌>>=◌
  Yields-attempt m f k = record { at = λ w. (k (m w).0).at (m w).1 }

  pub Yields-bind {ν} :
      {P : A → Type ν} (m : M A) (f : A → M B)
      → Yields P m
      → ((a : A) → P a → Yields Q (f a))
      → Yields Q (m >>= f)
  unfolding ◌>>=◌
  Yields-bind m f km kf = record { at = λ w. let (a, e, p) = km.at w in rw e ((kf a p).at (m w).1) }
