-- ===== src/Util/Calls.antt =====
-- The rest of pkg/util/util.go.
pub mod Laws
use Prim.Native.Nat.{bit_and}
use edgi_os.Base.{
  Bytes, codes, ℕ, Bool, true, false, not, List, [], ◌∷◌, ◌++◌, ◌==◌, take, same, if◌then◌else◌,
}
use edgi_os.Os.World.{
  Error, message, eof, Result, ok, err, Node, file, directory, link, Response, M, pure, raise,
  attempt, call, ◌>>=◌, ◌>>◌,
}
use edgi_os.Os.Files.{stat, read_file}
use edgi_os.Os.Tree.{mkdir_all}
use edgi_os.Os.Process.{http_get, run}
use edgi_os.Util.Atomic.{write_file_atomic}

-- What EnsureDirectoryExists does with the result of os.Stat.
abbrev pub ensure_from : Bytes → Result Node → M (Unit {0})
ensure_from dir (ok (directory m)) = pure tt
ensure_from dir (ok n) = raise (message (dir ++ codes " is not a directory"))
ensure_from dir (err e) = mkdir_all dir 0o755

unfoldable pub ensure_directory_exists : Bytes → M (Unit {0})
ensure_directory_exists dir = do info ← attempt (stat dir); ensure_from dir info

abbrev pub node_perm : Node → ℕ
node_perm (file m s) = bit_and m 0o777
node_perm (directory m) = bit_and m 0o777
node_perm (link t) = 0o777

abbrev pub is_usable : Result Node → Bool
is_usable (ok n) = not (node_perm n == 0)
is_usable (err e) = false

unfoldable pub exists_and_executable : Bytes → M Bool
exists_and_executable path = do info ← attempt (stat path); pure (is_usable info)

-- The program and its arguments for a script that begins so; an empty script cannot be read.
abbrev pub run_magic : Bytes → List Bytes → Bytes → M Bytes
run_magic path args [] = raise eof
run_magic path args (c ∷ s) =
    if same (take 2 (c ∷ s)) (codes "#!")
    then run path args [] []
    else run (codes "/bin/sh") (path ∷ []) [] []

abbrev pub run_if : Bytes → List Bytes → Bool → M Bytes
run_if path args false = pure []
run_if path args true = do script ← read_file path; run_magic path args script

unfoldable pub run_script : Bytes → List Bytes → M Bytes
unfolding exists_and_executable
run_script path args = do usable ← exists_and_executable path; run_if path args usable

-- ioutil.ReadAll(resp.Body)
unfoldable pub read_body : Response → M Bytes
read_body r = call (λ w. (ok r.body, w))

unfoldable pub http_download_to_file : Bytes → Bytes → M (Unit {0})
http_download_to_file url dest = do
  res ← http_get url
  body ← read_body res
  write_file_atomic dest body 0o644

unfoldable pub http_load_bytes : Bytes → M Bytes
http_load_bytes url = do
  resp ← http_get url
  if resp.status == 200 then read_body resp else raise (message (codes "non-200 http response"))
