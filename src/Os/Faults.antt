-- ===== src/Os/Faults.antt =====
-- What a fault can make of a call, and of the calls that only look.
use edgi_os.Base.{Bytes, ℕ, some, ◌≡◌, ◌⊎◌, inl, inr, refl, arith}
use edgi_os.Os.World.{
  Error, Result, ok, err, file, Fault, fine, fail, short, World, M, under_fault, head_fault, charge,
}
use edgi_os.Os.Files.{stat, read_file, follow}

-- The call works, or it fails and nothing has changed.
pub under_cases {ℓ} :
    {A : Type ℓ} (f : Fault) (m : M A) (w w' : World) (a : A)
    → m w ≡ (ok a, w')
    → (under_fault f m w ≡ (ok a, w')) ⊎ ((e : Error) × (under_fault f m w ≡ (err e, w)))
under_cases fine m w w' a h = inl h
under_cases (fail e) m w w' a h = inr (e, refl)
under_cases (short n e) m w w' a h = inr (e, refl)

pub read_file-cases :
    (path s : Bytes) (m : ℕ) (w : World)
    → w.files path ≡ some (file m s)
    → (read_file path w ≡ (ok s, charge w)) ⊎ ((e : Error) × (read_file path w ≡ (err e, charge w)))
unfolding read_file follow
read_file-cases path s m w e =
    under_cases (head_fault w.faults) _ (charge w) (charge w) s (ground arith)

pub stat-cases :
    (path s : Bytes) (m : ℕ) (w : World)
    → w.files path ≡ some (file m s)
    → (stat path w ≡ (ok (file m s), charge w)) ⊎ ((e : Error) × (stat path w ≡ (err e, charge w)))
unfolding stat follow
stat-cases path s m w e =
    under_cases (head_fault w.faults) _ (charge w) (charge w) (file m s) (ground arith)

-- What an action comes back with, to split on.
pub Outcome-cases {ℓ} :
    {A : Type ℓ} (x : Result A × World)
    → ((a : A) × (w : World) × (x ≡ (ok a, w))) ⊎ ((e : Error) × (w : World) × (x ≡ (err e, w)))
Outcome-cases (ok a, w) = inl (a, w, refl)
Outcome-cases (err e, w) = inr (e, w, refl)
