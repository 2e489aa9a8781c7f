-- ===== src/Rc/Calls.antt =====
-- The calls of pkg/cli/rc/rc.go that log an error or drop it.
pub mod Laws
pub mod Table
use Prim.Native.Nat.{bit_and}
use edgi_os.Base.{
  Bytes, codes, ℕ, Bool, true, false, List, [], ◌∷◌, ◌++◌, Option, none, some, same, contains,
  is_empty, ◌==◌, if◌then◌else◌,
}
use edgi_os.Base.Strings.{split, drop_cr, trim_space}
use edgi_os.Os.World.{errno, Result, ok, err, Node, M, pure, attempt, log, ◌>>=◌, ◌>>◌}
use edgi_os.Os.Logged.{logged, ignored}
use edgi_os.Os.Files.{stat, read_file, write_file}
use edgi_os.Os.Tree
use edgi_os.Os.Tree.{mkdir_all}
use edgi_os.Os.Process
use edgi_os.Os.Process.{run}

-- What the steps take from the kernel and from golang.org/x/sys.
pub record Kernel : Type 0 where
  -- unix.Mkdev
  pub mkdev : ℕ → ℕ → ℕ
  -- ioutil.ReadDir, as the names, and filepath.Glob
  pub read_dir : Bytes → M (List Bytes)
  pub glob : Bytes → M (List Bytes)

-- os.MkdirAll takes the nine lowest bits of a mode that is given as a number.
unfoldable pub mkdir : Bytes → ℕ → M (Unit {0})
mkdir path perm = logged (mkdir_all path (bit_and perm 0o777))

unfoldable pub mount : Bytes → Bytes → Bytes → ℕ → Bytes → M (Unit {0})
unfolding mkdir
mount source target fstype flags options = do
  mkdir target 0o755
  logged (Process.mount source target fstype flags options)

unfoldable pub mount_silent : Bytes → Bytes → Bytes → ℕ → Bytes → M (Unit {0})
mount_silent source target fstype flags options =
    ignored (Process.mount source target fstype flags options)

unfoldable pub symlink : Bytes → Bytes → M (Unit {0})
symlink old new = ignored (Tree.symlink old new)

-- A line of /proc/cgroups: the name and whether it is enabled. A field in quotes, which that file has
-- nowhere, is taken for the error that a quote within a field is.
abbrev pub four_fields : List Bytes → Option (Bytes × Bytes)
four_fields (name ∷ hierarchy ∷ count ∷ enabled ∷ []) = some (name, enabled)
four_fields _ = none

abbrev pub read_record : Bytes → Option (Bytes × Bytes)
read_record line = if contains line (b'"' ∷ []) then none else four_fields (split line b'\t')

abbrev pub add_record :
    Option (Bytes × Bytes) → Option (List (Bytes × Bytes)) → Option (List (Bytes × Bytes))
add_record (some r) (some rs) = some (r ∷ rs)
add_record _ _ = none

-- (*csv.Reader).ReadAll on the lines: empty ones are skipped, and one error is the error of all.
unfoldable pub read_records : List Bytes → Option (List (Bytes × Bytes))
unfolding contains split
read_records [] = some []
read_records (line ∷ lines) =
    let rest = read_records lines in
    if is_empty (drop_cr line) then rest else add_record (read_record (drop_cr line)) rest

unfoldable pub enabled_names : List (Bytes × Bytes) → List Bytes
enabled_names [] = []
enabled_names ((name, enabled) ∷ rs) =
    let rest = enabled_names rs in if same enabled (codes "1") then name ∷ rest else rest

abbrev pub cgroups_from : Option (List (Bytes × Bytes)) → M (List Bytes)
cgroups_from none = do log (codes "cannot parse /proc/cgroups"); pure []
cgroups_from (some rs) = pure (enabled_names rs)

abbrev pub cgroups_in : Result Bytes → M (List Bytes)
cgroups_in (err e) = do log (codes "cannot open /proc/cgroups"); pure []
cgroups_in (ok s) = cgroups_from (read_records (split s b'\n'))

unfoldable pub cgroup_list : M (List Bytes)
unfolding read_records enabled_names
cgroup_list = do s ← attempt (read_file (codes "/proc/cgroups")); cgroups_in s

unfoldable pub write : Bytes → Bytes → M (Unit {0})
write path value = logged (write_file path value 0o600)

abbrev pub trimmed : Result Bytes → Bytes
trimmed (ok s) = trim_space s
trimmed (err e) = []

unfoldable pub read : Bytes → M Bytes
read path = do s ← attempt (read_file path); pure (trimmed s)

abbrev pub is_ok {ℓ} : {A : Type ℓ} → Result A → Bool
is_ok (ok a) = true
is_ok (err e) = false

unfoldable pub exists : Bytes → M Bool
exists path = do r ← attempt (stat path); pure (is_ok r)

-- modalias, for one file
unfoldable pub modalias : Bytes → M (Unit {0})
unfolding read
modalias path = do
  alias ← read path
  ignored (run (codes "/sbin/modprobe") (codes "-abq" ∷ alias ∷ []) [] [])

abbrev pub names_or_none : Result (List Bytes) → M (List Bytes)
names_or_none (ok names) = pure names
names_or_none (err e) = do log (codes "error"); pure []

-- EEXIST is not logged.
abbrev pub log_unless_there : Result (Unit {0}) → M (Unit {0})
log_unless_there (ok a) = pure tt
log_unless_there (err (errno n)) = if n == 17 then pure tt else log (codes "error making device")
log_unless_there (err e) = log (codes "error making device")

module _ (kernel : Kernel) where
  unfoldable pub mkchar : Bytes → ℕ → ℕ → ℕ → M (Unit {0})
  mkchar path mode major minor = do
    made ← attempt (Tree.mknod path mode (kernel.mkdev major minor))
    log_unless_there made

  unfoldable pub readdir : Bytes → M (List Bytes)
  readdir path = do names ← attempt (kernel.read_dir path); names_or_none names

  unfoldable pub glob : Bytes → M (List Bytes)
  glob pattern = do names ← attempt (kernel.glob pattern); names_or_none names
