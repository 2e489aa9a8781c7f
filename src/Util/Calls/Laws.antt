-- ===== src/Util/Calls/Laws.antt =====
-- What a download leaves.
use mathlib.Core.Path.{subst}
use edgi_os.Base.{
  Bytes, ℕ, arith, List, [], ◌∷◌, Option, none, some, false, ◌≡◌, ◌≢◌, sym, refl, ◌∙◌, inl, inr,
  ◌⊎◌,
}
use edgi_os.Os.World.{
  Error, Result, ok, err, Response, Node, file, directory, link, World, emit, fetched, charge,
  head_fault, defer, ◌>>=◌,
}
use edgi_os.Os.Process.{http_get}
use edgi_os.Os.Faults.{under_cases}
use edgi_os.Os.Files.{is_directory, update, write_open, close, chmod, follow}
use edgi_os.Os.Tree.{temp_file_in, fresh_between, rename}
use edgi_os.Util.Atomic.{replace_by, write_file_atomic}
use edgi_os.Util.Atomic.Laws.{
  Replaced, before_drawn, behind_drawn, temp_name, temp_name-ne, fresh_between-free,
  write_file_atomic-Replaced,
}
use edgi_os.Util.Calls.{read_body, http_download_to_file}

-- What stands at the target behind a download, by its result.
pub Downloaded : Bytes → World → Result (Unit {0}) → World → Type 0
Downloaded dest w (ok _) w' =
    (resp : Response) × (more : List (Result Response)) × (w.responses ≡ ok resp ∷ more)
    × (w'.files dest ≡ some (file 0o644 resp.body))
Downloaded dest w (err e) w' = w'.files dest ≡ w.files dest

Replaced-Downloaded :
    (dest : Bytes) (resp : Response) (more : List (Result Response)) (w v u : World)
    (r : Result (Unit {0}))
    → w.responses ≡ ok resp ∷ more
    → v.files dest ≡ w.files dest
    → Replaced dest resp.body 0o644 (v.files dest) r u
    → Downloaded dest w r u
unfolding Downloaded
Replaced-Downloaded dest resp more w v u (ok _) e h k = (resp, more, e, k)
Replaced-Downloaded dest resp more w v u (err x) e h k = k ∙ h

read_body-cases :
    (resp : Response) (w : World)
    → (read_body resp w ≡ (ok resp.body, charge w))
      ⊎ ((e : Error) × (read_body resp w ≡ (err e, charge w)))
unfolding read_body
read_body-cases resp w = under_cases (head_fault w.faults) _ (charge w) (charge w) resp.body refl

write-Downloaded :
    (dest : Bytes) (resp : Response) (more : List (Result Response)) (w v : World)
    → w.responses ≡ ok resp ∷ more
    → v.files dest ≡ w.files dest
    → let (r, u) = (read_body resp >>= λ body. write_file_atomic dest body 0o644) v in
      Downloaded dest w r u
unfolding ◌>>=◌ Downloaded
write-Downloaded dest resp more w v e h = elim (read_body-cases resp v) [
  | inl ran ↦ rw ran (
      Replaced-Downloaded dest resp more w (charge v) _ _ e h
        (write_file_atomic-Replaced dest resp.body 0o644 (charge v)))
  | inr (x, failed) ↦ rw failed h
]

from_responses :
    (url dest : Bytes) (w : World) (responses : List (Result Response))
    → w.responses ≡ responses
    → let (r, w') = http_download_to_file url dest w in Downloaded dest w r w'
unfolding http_download_to_file ◌>>=◌ http_get Downloaded
from_responses url dest w [] e = rw e refl
from_responses url dest w (err x ∷ more) e = rw e refl
from_responses url dest w (ok resp ∷ more) e =
    let asked : World = record w { responses = ok resp ∷ more } in
    rw e (
      write-Downloaded dest resp more asked (emit (fetched url) (record w { responses = more }))
        refl refl)

-- A download that succeeds has put the body of the next response at the target; one that fails has
-- left what stood there.
pub http_download_to_file-by_result :
    (url dest : Bytes) (w : World)
    → let (r, w') = http_download_to_file url dest w in Downloaded dest w r w'
http_download_to_file-by_result url dest w = from_responses url dest w w.responses refl

not_directory : (o : Option Node) → ((k : ℕ) → o ≢ some (directory k)) → is_directory o ≡ false
not_directory none h = refl
not_directory (some (directory k)) h = absurd (h k refl)
not_directory (some (file m s)) h = refl
not_directory (some (link t)) h = refl

replace_by-quiet :
    (p s t : Bytes) (perm m : ℕ) (w : World)
    → w.faults ≡ []
    → ((k : ℕ) → w.files p ≢ some (directory k))
    → w.files t ≡ some (file m [])
    → p ≢ t
    → (replace_by p s perm t w).0 ≡ ok tt
unfolding replace_by write_open close chmod rename follow ◌>>=◌
replace_by-quiet p s t perm m w f plain made n = ground (arith, not_directory (w.files p) plain)

write_file_atomic-quiet :
    (p s r : Bytes) (left : List Bytes) (perm : ℕ) (w : World)
    → w.faults ≡ []
    → ((k : ℕ) → w.files p ≢ some (directory k))
    → fresh_between w.files (before_drawn p) (behind_drawn p) w.random ≡ some (r, left)
    → (write_file_atomic p s perm w).0 ≡ ok tt
unfolding write_file_atomic temp_file_in defer ◌>>=◌
write_file_atomic-quiet p s r left perm w f plain drawn =
    let t = temp_name p r in
    let made : World = record w {
      faults = [];
      random = left;
      files = update w.files t (some (file (w.mask 0o600) []));
    } in
    let apart : p ≢ t = temp_name-ne p r (fresh_between-free w.files _ _ r w.random left drawn).0 in
    let other : made.files p ≡ w.files p = ground arith in
    let there : made.files t ≡ some (file (w.mask 0o600) []) = ground arith in
    rw f (
      rw drawn (
        replace_by-quiet p s t perm (w.mask 0o600) made refl (λ k e. plain k (sym other ∙ e)) there
          apart))

-- Where no call fails, the server answers, no directory stands at the target and a name for the
-- temporary file is found: whatever the status of the answer, the download succeeds, and its body stands at the target.
pub http_download_to_file-Downloaded :
    (url dest r : Bytes) (left : List Bytes) (resp : Response) (more : List (Result Response))
    (w : World)
    → w.faults ≡ []
    → w.responses ≡ ok resp ∷ more
    → ((k : ℕ) → w.files dest ≢ some (directory k))
    → fresh_between w.files (before_drawn dest) (behind_drawn dest) w.random ≡ some (r, left)
    → let (result, w') = http_download_to_file url dest w in
      (result ≡ ok tt) × (w'.files dest ≡ some (file 0o644 resp.body))
unfolding http_download_to_file http_get read_body ◌>>=◌
http_download_to_file-Downloaded url dest r left resp more w f answer plain drawn =
    let asked : World = record (emit (fetched url) w) { faults = []; responses = more } in
    let done : (write_file_atomic dest resp.body 0o644 asked).0 ≡ ok tt =
      write_file_atomic-quiet dest resp.body r left 0o644 asked refl plain drawn in
    let whole : (write_file_atomic dest resp.body 0o644 asked).1.files dest
        ≡ some (file 0o644 resp.body) =
      subst
        (λ (x : Result (Unit {0})).
          Replaced dest resp.body 0o644 (w.files dest) x
            (write_file_atomic dest resp.body 0o644 asked).1)
        done (write_file_atomic-Replaced dest resp.body 0o644 asked) in
    rw answer (rw f (done, whole))
