-- ===== src/Cc/Environment.antt =====
-- ApplyEnvironment of pkg/cc/funcs.go. The map is its entries in the order of first insertion, one
-- of the orders in which Go's `range` may visit them.
pub mod Laws
pub mod RoundTrip
pub mod Refines
use edgi_os.Base.{
  Bytes, codes, ℕ, Bool, true, false, List, [], ◌∷◌, ◌++◌, Option, none, some, same, has_prefix,
  length, ltb, if◌then◌else◌,
}
use edgi_os.Base.Strings.{trim_space, trim_prefix, split_two, scan_lines}
use edgi_os.Base.Quote.{quote, unquote}
use edgi_os.Os.World.{Error, wrapped, Result, ok, err, M, pure, raise, attempt, ◌>>=◌, ◌>>◌}
use edgi_os.Os.Files.{read_file, write_file}
use edgi_os.Config.Types.{CloudConfig, Entries}

unfoldable pub lookup : Bytes → Entries → Option Bytes
lookup k [] = none
lookup k ((j, v) ∷ m) = if same j k then some v else lookup k m

-- env[k] = v
unfoldable pub insert : Bytes → Bytes → Entries → Entries
insert k v [] = (k, v) ∷ []
insert k v ((j, w) ∷ m) = if same j k then (k, v) ∷ m else (j, w) ∷ insert k v m

abbrev pub entry_value : Option Bytes → Bytes
entry_value none = []
entry_value (some raw) = elim (unquote raw) [ none ↦ raw | some v ↦ v ]

abbrev pub entry_of : Bytes × Option Bytes → Bytes × Bytes
entry_of (k, raw) = (k, entry_value raw)

-- The entry of a line: `none` for a comment and for a line of less than two bytes.
unfoldable pub line_entry : Bytes → Option (Bytes × Bytes)
line_entry text =
    let line = trim_space text in
    let rest = trim_space (trim_prefix line (codes "export")) in
    if has_prefix line (codes "#")
    then none
    else if ltb 1 (length rest)
    then some (entry_of (split_two rest b'='))
    else none

abbrev pub insert_entry : Option (Bytes × Bytes) → Entries → Entries
insert_entry none m = m
insert_entry (some (k, v)) m = insert k v m

unfoldable pub read_lines : List Bytes → Entries → Entries
unfolding line_entry insert
read_lines [] m = m
read_lines (l ∷ ls) m = read_lines ls (insert_entry (line_entry l) m)

unfoldable pub insert_all : Entries → Entries → Entries
unfolding insert
insert_all [] m = m
insert_all ((k, v) ∷ new) m = insert_all new (insert k v m)

unfoldable pub render : Entries → Bytes
render [] = []
render ((k, v) ∷ m) = k ++ b'=' ∷ (quote v ++ 10 ∷ render m)

-- A file that cannot be read counts as empty, and so does what follows a line that is too long.
abbrev pub file_entries : Result Bytes → Entries
file_entries (ok text) = read_lines (scan_lines text).0 []
file_entries (err e) = []

abbrev pub wrap_write : Result (Unit {0}) → M (Unit {0})
wrap_write (ok _) = pure tt
wrap_write (err e) = raise (wrapped (codes "failed to write to /etc/environment") e)

unfoldable pub write_environment : Entries → M (Unit {0})
unfolding insert_all render
write_environment [] = pure tt
write_environment (e ∷ new) = do
  old ← attempt (read_file (codes "/etc/environment"))
  r ← attempt (
      write_file (codes "/etc/environment") (render (insert_all (e ∷ new) (file_entries old)))
        0o644)
  wrap_write r

unfoldable pub apply_environment : CloudConfig → M (Unit {0})
unfolding write_environment
apply_environment cfg = write_environment cfg.edgi.environment
