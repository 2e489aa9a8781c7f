-- ===== src/Base/Paths.antt =====
-- What the program uses of Go's `path` and `path/filepath`: the lexical functions on slash paths.
pub mod Laws
use edgi_os.Base.Text.{Bytes, codes, same, is_empty, has_prefix}
use edgi_os.Base.Tests.{◌==◌, if◌then◌else◌}
use edgi_os.Base.Strings.{split, join}
use Prim.Native.Nat.{ℕ}
use mathlib.Core.Bool.{Bool, true, false, ◌||◌}
use mathlib.Core.List.{List, [], ◌∷◌, ◌++◌, reverse}

abbrev pub slash : ℕ
slash = b'/'

abbrev pub dots : Bytes
dots = b'.' ∷ b'.' ∷ []

-- What `..` does to the elements kept so far, the last one first.
abbrev pub go_up : Bool → List Bytes → List Bytes
go_up true [] = []
go_up false [] = dots ∷ []
go_up rooted (c ∷ cs) = if same c dots then dots ∷ c ∷ cs else cs

abbrev pub clean_step : Bool → Bytes → List Bytes → List Bytes
clean_step rooted c kept =
    if is_empty c || same c (b'.' ∷ [])
    then kept
    else if same c dots
    then go_up rooted kept
    else c ∷ kept

unfoldable pub clean_parts : Bool → List Bytes → List Bytes → List Bytes
clean_parts rooted [] kept = kept
clean_parts rooted (c ∷ cs) kept = clean_parts rooted cs (clean_step rooted c kept)

abbrev pub or_dot : Bytes → Bytes
or_dot [] = b'.' ∷ []
or_dot (c ∷ s) = c ∷ s

-- path.Clean
unfoldable pub clean : Bytes → Bytes
unfolding clean_parts split join
clean [] = b'.' ∷ []
clean (c ∷ s) =
    if c == slash
    then slash ∷ join (reverse (clean_parts true (split s slash) [])) (slash ∷ [])
    else or_dot (join (reverse (clean_parts false (split (c ∷ s) slash) [])) (slash ∷ []))

unfoldable pub drop_empty : List Bytes → List Bytes
drop_empty [] = []
drop_empty (p ∷ ps) = let rest = drop_empty ps in if is_empty p then rest else p ∷ rest

abbrev pub clean_joined : List Bytes → Bytes
clean_joined [] = []
clean_joined (p ∷ ps) = clean (join (p ∷ ps) (slash ∷ []))

-- path.Join and filepath.Join: the elements that are not empty, joined and cleaned.
unfoldable pub path_join : List Bytes → Bytes
unfolding drop_empty clean
path_join ps = clean_joined (drop_empty ps)

abbrev pub split_path_step : ℕ → Bytes × Bytes → Bytes × Bytes
split_path_step c ([], f) = if c == slash then (c ∷ [], f) else ([], c ∷ f)
split_path_step c (d ∷ ds, f) = (c ∷ d ∷ ds, f)

-- path.Split: up to the last slash, and behind it.
unfoldable pub split_path : Bytes → Bytes × Bytes
split_path [] = ([], [])
split_path (c ∷ s) = split_path_step c (split_path s)

-- path.Dir
unfoldable pub dir : Bytes → Bytes
unfolding split_path clean
dir p = clean (split_path p).0

-- filepath.Base of a cleaned path
unfoldable pub base : Bytes → Bytes
unfolding split_path
base p = let (d, name) = split_path p in if is_empty name then slash ∷ [] else name
