-- ===== src/Os/Keeps.antt =====
-- Properties of the state that actions keep, whether they return or fail: a rule for each way to
-- build an action.
pub mod Links
pub mod Env
use edgi_os.Os.World.{Error, Result, ok, err, World, M, pure, raise, lift, attempt, defer, ◌>>=◌}

pub record Keeps {ℓ κ} {A : Type ℓ} (P : World → Type κ) (m : M A) : Type κ where
  pub at : (w : World) → P w → P (m w).1

-- The property that every state has.
abbrev pub Any : World → Type 0
Any w = Unit

pub Any-Keeps {ℓ} : {A : Type ℓ} (m : M A) → Keeps Any m
Any-Keeps m = record { at = λ w h. tt }

module _ {ℓ κ} {A : Type ℓ} {P : World → Type κ} where
  pub Keeps-pure : (a : A) → Keeps P (pure a)
  unfolding pure
  Keeps-pure a = record { at = λ w h. h }

  pub Keeps-raise : (e : Error) → Keeps P (raise {A = A} e)
  unfolding raise
  Keeps-raise e = record { at = λ w h. h }

  pub Keeps-attempt : (m : M A) → Keeps P m → Keeps P (attempt m)
  unfolding attempt
  Keeps-attempt m k = record { at = λ w h. k.at w h }

module _ {ℓ κ μ} {A : Type ℓ} {B : Type κ} {P : World → Type μ} where
  Keeps-continue :
      (r : Result A) (f : A → M B)
      → ((a : A) → Keeps P (f a))
      → (w : World) → P w
      → P ((lift r >>= f) w).1
  unfolding ◌>>=◌
  Keeps-continue (ok a) f kf w h = (kf a).at w h
  Keeps-continue (err e) f kf w h = h

  -- The rest is given behind what the first action keeps.
  pub Keeps-bind :
      (m : M A) → Keeps P m → (rest : A → M B) → ((a : A) → Keeps P (rest a)) → Keeps P (m >>= rest)
  unfolding ◌>>=◌
  Keeps-bind m first rest later = record {
    at = λ w h. Keeps-continue (m w).0 rest later (m w).1 (first.at w h);
  }

  -- The rest keeps what its first part has come to.
  pub Keeps-after :
      (m : M A) (rest : A → M B)
      → ((a : A) → Keeps P (rest a))
      → (w : World) → P (m w).1
      → P ((m >>= rest) w).1
  unfolding ◌>>=◌
  Keeps-after m rest later w h = Keeps-continue (m w).0 rest later (m w).1 h

module _ {ℓ κ μ} {A : Type ℓ} {P : World → Type κ} {Q : World → Type μ} where
  pub Keeps-both : (m : M A) → Keeps P m → Keeps Q m → Keeps (λ w. P w × Q w) m
  Keeps-both m k n = record { at = λ w (h, g). (k.at w h, n.at w g) }

-- What an action that starts in P comes to, by its result.
pub record Ends {ℓ κ μ} {A : Type ℓ} (P : World → Type κ) (Q : Result A → World → Type μ) (m : M A)
    : Type (κ ⊔ μ) where
  pub at : (w : World) → P w → let (r, w') = m w in Q r w'

module _ {ℓ κ μ ν} {A : Type ℓ} {B : Type κ} {P : World → Type μ} {Q : Result B → World → Type ν}
    (fails : (e : Error) (w : World) → P w → Q (err e) w) where
  -- What is to be shown of the rest of an action, by the result of its first part.
  Ends-continue :
      (r : Result A) (f : A → M B)
      → ((a : A) → Ends P Q (f a))
      → (w : World) → P w
      → let (r', w') = (lift r >>= f) w in Q r' w'
  unfolding ◌>>=◌
  Ends-continue (ok a) f kf w h = (kf a).at w h
  Ends-continue (err e) f kf w h = fails e w h

  -- The first part keeps what it starts from.
  pub Ends-bind :
      (m : M A) (f : A → M B) → Keeps P m → ((a : A) → Ends P Q (f a)) → Ends P Q (m >>= f)
  unfolding ◌>>=◌
  Ends-bind m f km kf = record { at = λ w h. Ends-continue (m w).0 f kf (m w).1 (km.at w h) }

module _ {ℓ κ μ} {A : Type ℓ} {P : World → Type κ} {Q : Result A → World → Type μ} where
  pub Ends-defer :
      (c : M (Unit {0})) (m : M A)
      → ((r : Result A) → Keeps (Q r) c)
      → Ends P Q m
      → Ends P Q (defer c m)
  unfolding defer
  Ends-defer c m kc km = record { at = λ w h. (kc (m w).0).at (m w).1 (km.at w h) }

-- What the first part comes to is what the rest starts from.
module _ {ℓ κ μ ν ξ} {A : Type ℓ} {B : Type κ} (Q : Result A → World → Type ν)
    (R : Result B → World → Type ξ) (fails : (e : Error) (w : World) → Q (err e) w → R (err e) w)
    (f : A → M B) (works : (a : A) → Ends (Q (ok a)) R (f a)) where
  Ends-rest : (r : Result A) (w : World) → Q r w → let (r', w') = (lift r >>= f) w in R r' w'
  unfolding ◌>>=◌
  Ends-rest (ok a) w h = (works a).at w h
  Ends-rest (err e) w h = fails e w h

  pub Ends-then : {P : World → Type μ} → (m : M A) → Ends P Q m → Ends P R (m >>= f)
  unfolding ◌>>=◌
  Ends-then m k = record { at = λ w h. Ends-rest (m w).0 (m w).1 (k.at w h) }
