-- ===== src/Module.antt =====
-- pkg/module/module.go
pub mod Laws
use edgi_os.Base.{
  Bytes, codes, Bool, true, false, ◌||◌, List, [], ◌∷◌, ◌++◌, map, same, if◌then◌else◌,
}
use edgi_os.Base.Strings.{split, split_two, join, scan_lines}
use edgi_os.Os.World.{
  Error, message, wrapped, Result, ok, err, M, pure, raise, attempt, for_each, ◌>>=◌, ◌>>◌,
}
use edgi_os.Os.Files.{read_file}
use edgi_os.Os.Process.{load_module}
use edgi_os.Config.Types.{CloudConfig}

-- The set of the names that the lines of /proc/modules begin with.
abbrev pub loaded_names : List Bytes → List Bytes
loaded_names = map (λ l. (split_two l b' ').0)

unfoldable pub is_loaded : Bytes → List Bytes → Bool
is_loaded m [] = false
is_loaded m (n ∷ ns) = same m n || is_loaded m ns

-- The error of modprobe is wrapped in a text.
abbrev pub wrap_load : Bytes → Result (Unit {0}) → M (Unit {0})
wrap_load m (ok _) = pure tt
wrap_load m (err e) = raise (wrapped (codes "could not load module " ++ m) e)

abbrev pub load_params : Bytes → List Bytes → M (Unit {0})
load_params m [] = pure tt
load_params m (name ∷ params) = do
  r ← attempt (load_module name (join params (codes " ")))
  wrap_load m r

unfoldable pub load_one : List Bytes → Bytes → M (Unit {0})
unfolding is_loaded
load_one loaded m = if is_loaded m loaded then pure tt else load_params m (split m b' ')

abbrev pub scan_result : Bool → M (Unit {0})
scan_result true = raise (message (codes "bufio.Scanner: token too long"))
scan_result false = pure tt

unfoldable pub load_modules : CloudConfig → M (Unit {0})
unfolding load_one
load_modules cfg = do
  text ← read_file (codes "/proc/modules")
  let (lines, long) = scan_lines text
  for_each cfg.edgi.modules (load_one (loaded_names lines))
  scan_result long
