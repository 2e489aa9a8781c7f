-- ===== src/Os/Lines.antt =====
-- How many lines of input an action takes, and loops that the lines bound.
use edgi_os.Base.{ℕ, ◌+◌, ◌≤◌, ◌<◌, length, ◌≡◌, refl, arith}
use edgi_os.Os.World.{Error, Result, ok, err, World, M, pure, lift, raise, ◌>>=◌}

-- Where the action returns, so many lines are gone.
abbrev pub Gone {ℓ} : {A : Type ℓ} → ℕ → World → Result A × World → Type 0
Gone k w (ok a, v) = k + length v.input ≤ length w.input
Gone k w (err e, v) = Unit

pub record Takes {ℓ} {A : Type ℓ} (k : ℕ) (m : M A) : Type 0 where
  pub at : (w : World) → Gone k w (m w)

-- Two actions are the same from every state with fewer lines.
pub record Alike {ℓ} {A : Type ℓ} (bound : ℕ) (m n : M A) : Type ℓ where
  pub at : (w : World) → length w.input < bound → m w ≡ n w

module _ {ℓ} {A : Type ℓ} where
  pub Takes-pure : (a : A) → Takes 0 (pure a)
  unfolding pure
  Takes-pure a = record { at = λ w. omega arith }

  pub Takes-raise : (k : ℕ) (e : Error) → Takes k (raise {A = A} e)
  unfolding raise
  Takes-raise k e = record { at = λ w. tt }

  Gone-less :
      (j k : ℕ) (w : World) (r : Result A) (v : World) → j ≤ k → Gone k w (r, v) → Gone j w (r, v)
  Gone-less j k w (ok a) v l g = omega (arith, l, g)
  Gone-less j k w (err e) v l g = tt

  Gone-further :
      (j k : ℕ) (r : Result A) (w v u : World)
      → j + length v.input ≤ length w.input
      → Gone k v (r, u)
      → Gone (j + k) w (r, u)
  Gone-further j k (ok a) w v u h g = omega (arith, h, g)
  Gone-further j k (err e) w v u h g = tt

  pub Gone-shorter :
      (j : ℕ) (w u : World) (r : Result A) (v : World)
      → length u.input ≤ length w.input
      → Gone j u (r, v)
      → Gone j w (r, v)
  Gone-shorter j w u (ok a) v l g = omega (arith, l, g)
  Gone-shorter j w u (err e) v l g = tt

  pub Takes-less : (j k : ℕ) (m : M A) → j ≤ k → Takes k m → Takes j m
  Takes-less j k m l t = record { at = λ w. Gone-less j k w (m w).0 (m w).1 l (t.at w) }

  pub Alike-none : (m n : M A) → Alike 0 m n
  Alike-none m n = record { at = λ w b. absurd (omega (arith, b)) }

  pub Alike-refl : (bound : ℕ) (m : M A) → Alike bound m m
  Alike-refl bound m = record { at = λ w b. refl }

module _ {ℓ κ} {A : Type ℓ} {B : Type κ} where
  Gone-continue :
      (j k : ℕ) (r : Result A) (f : A → M B) (w v : World)
      → ((a : A) → Takes k (f a))
      → Gone j w (r, v)
      → Gone (j + k) w ((lift r >>= f) v)
  unfolding ◌>>=◌
  Gone-continue j k (ok a) f w v t g = Gone-further j k (f a v).0 w v (f a v).1 g ((t a).at v)
  Gone-continue j k (err e) f w v t g = tt

  pub Takes-bind :
      (j k : ℕ) (m : M A) (f : A → M B)
      → Takes j m
      → ((a : A) → Takes k (f a))
      → Takes (j + k) (m >>= f)
  unfolding ◌>>=◌
  Takes-bind j k m f t u = record { at = λ w. Gone-continue j k (m w).0 f w (m w).1 u (t.at w) }

  Alike-continue :
      (j further bound : ℕ) (r : Result A) (f g : A → M B) (w v : World)
      → ((a : A) → Alike further (f a) (g a))
      → Gone j w (r, v)
      → bound ≤ j + further
      → length w.input < bound
      → (lift r >>= f) v ≡ (lift r >>= g) v
  unfolding ◌>>=◌
  Alike-continue j further bound (ok a) f g w v s t c b = (s a).at v (omega (arith, t, c, b))
  Alike-continue j further bound (err e) f g w v s t c b = refl

  -- What the first action takes, the others have less to go through.
  pub Alike-bind :
      (j further bound : ℕ) (m : M A) (f g : A → M B)
      → bound ≤ j + further
      → Takes j m
      → ((a : A) → Alike further (f a) (g a))
      → Alike bound (m >>= f) (m >>= g)
  unfolding ◌>>=◌
  Alike-bind j further bound m f g c t s = record {
    at = λ w b. Alike-continue j further bound (m w).0 f g w (m w).1 s (t.at w) c b;
  }
