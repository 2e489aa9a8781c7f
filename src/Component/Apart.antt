-- ===== src/Component/Apart.antt =====
-- Paths that a copy does not reach, and steps that leave links.
use edgi_os.Base.{
  Bytes, codes, false, [], ◌∷◌, ◌++◌, has_prefix, ◌≡◌, ◌≢◌, refl, arith, bytes_discrete, length,
  length-append, ap,
}
use edgi_os.Os.World.{Result, ok, err, M, attempt, ◌>>=◌}
use edgi_os.Os.Tree.{is_within}
use edgi_os.Os.Keeps.{Keeps, Keeps-pure, Keeps-attempt, Keeps-bind}
use edgi_os.Os.Keeps.Links.{LinkAt, log-Keeps}
use edgi_os.Os.Logged.{log_failure, logged}
use edgi_os.Component.{Places, current_temp, temp_place, logged}

-- A path with a prefix that `q` lacks is another path, and `q` is not below it.
has_prefix-further : (p r q : Bytes) → has_prefix q p ≡ false → has_prefix q (p ++ r) ≡ false
unfolding has_prefix
has_prefix-further [] r q n = cc
has_prefix-further (c ∷ p) r [] n = refl
has_prefix-further (c ∷ p) r (x ∷ q) n = ground (arith, has_prefix-further p r q)

pub has_prefix-ne : (p q : Bytes) → has_prefix q p ≡ false → p ≢ q
unfolding has_prefix
has_prefix-ne [] q n = cc
has_prefix-ne (c ∷ p) [] n = ground arith
has_prefix-ne (c ∷ p) (x ∷ q) n = ground (arith, has_prefix-ne p q)

pub is_within-apart : (p r q : Bytes) → has_prefix q p ≡ false → is_within (p ++ r) q ≡ false
unfolding bytes_discrete
is_within-apart p r q n = ground (
  arith,
  has_prefix-further p r q n,
  has_prefix-further (p ++ r) (b'/' ∷ []) q,
  has_prefix-ne (p ++ r) q,
)

pub logged-Keeps {ℓ} :
    {A : Type ℓ} {q t : Bytes} (m : M A) → Keeps (LinkAt q t) m → Keeps (LinkAt q t) (logged m)
unfolding ◌>>=◌
logged-Keeps m k =
    Keeps-bind (attempt m) (Keeps-attempt m k) log_failure
      (elim [ ok a ↦ Keeps-pure tt | err e ↦ log-Keeps (codes "error") ])

-- What the name of the temporary link lacks, that of the link lacks.
pub current-apart : (c s p : Bytes) → has_prefix (c ++ s) p ≡ false → has_prefix c p ≡ false
unfolding has_prefix
current-apart c s [] n = cc
current-apart [] s (x ∷ p) n = refl
current-apart (y ∷ c) s (x ∷ p) n = ground (arith, current-apart c s p)

pub is_within-path : (p q : Bytes) → has_prefix q p ≡ false → is_within p q ≡ false
unfolding bytes_discrete
is_within-path p q n = ground (arith, has_prefix-further p (b'/' ∷ []) q, has_prefix-ne p q)

-- The target of `current` after a copy: the new version where it succeeded, the old one where it failed.
abbrev pub chosen {ℓ} : {A : Type ℓ} → Bytes → Bytes → Result A → Bytes
chosen old new (ok a) = new
chosen old new (err e) = old

-- A path that a copy does not reach but by the last step.
abbrev pub Apart : Places → Bytes → Type 0
Apart p q =
    (has_prefix q p.target ≡ false)
    × (has_prefix q p.previous ≡ false)
    × (has_prefix q (temp_place p) ≡ false)

pub current_temp-ne : (p : Places) → current_temp p ≢ p.current
current_temp-ne p e = omega (arith, ap length e, length-append {0} p.current (codes ".tmp"))
