-- ===== src/Os/Logged.antt =====
-- Errors that are logged or dropped, and what follows goes on.
use edgi_os.Base.{codes}
use edgi_os.Os.World.{Result, ok, err, M, pure, attempt, log, ◌>>=◌, ◌>>◌}

abbrev pub log_failure {ℓ} : {A : Type ℓ} → Result A → M (Unit {0})
log_failure (ok a) = pure tt
log_failure (err e) = log (codes "error")

-- An error that is only logged.
abbrev pub logged {ℓ} : {A : Type ℓ} → M A → M (Unit {0})
logged m = do r ← attempt m; log_failure r

-- An error that is dropped.
abbrev pub ignored {ℓ} : {A : Type ℓ} → M A → M (Unit {0})
ignored m = do attempt m; pure tt
