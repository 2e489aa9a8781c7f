-- ===== src/Os/Tree.antt =====
-- The calls of `os` and `ioutil` that make, move and remove what stands at a path.
use edgi_os.Base.{Bytes, ℕ, Bool, true, false, List, [], ◌∷◌, ◌++◌, Option, none, some}
use edgi_os.Base.{◌==◌, same, has_prefix, if◌then◌else◌, drop, length, ◌||◌, is_empty}
use edgi_os.Base.{codes}
use edgi_os.Base.Strings.{has_suffix, Signed}
use edgi_os.Base.Paths.{slash}
use edgi_os.Os.World.{
  not_exist, Result, ok, err, Node, file, directory, link, Files, World, M, call, emit, owned,
  device_made,
}
use edgi_os.Os.Files.{eexist, enotdir, enotempty, is_directory, update}

abbrev pub remove_at : Option Node → Bytes → World → Result (Unit {0}) × World
remove_at none p w = (err not_exist, w)
remove_at (some (directory m)) p w = (err enotempty, w)
remove_at (some _) p w = (ok tt, record w { files = update w.files p none })

-- os.Remove of a file or a link; every directory that the program removes this way holds something.
unfoldable pub remove : Bytes → M (Unit {0})
remove p = call (λ w. remove_at (w.files p) p w)

abbrev pub is_taken : Option Node → Bool
is_taken none = false
is_taken (some n) = true

-- The path or one below it.
abbrev pub is_within : Bytes → Bytes → Bool
is_within p q = same p q || has_prefix q (p ++ slash ∷ [])

-- The files after the tree at `old` has moved to `new`.
abbrev pub moved : Bytes → Bytes → Files → Files
moved old new files q =
    if is_within old q
    then none
    else if is_within new q
    then files (old ++ drop (length new) q)
    else files q

abbrev pub move_directory : Bool → Bytes → Bytes → World → Result (Unit {0}) × World
move_directory true old new w = (err enotdir, w)
move_directory false old new w = (ok tt, record w { files = moved old new w.files })

abbrev pub rename_node : Option Node → Bytes → Bytes → World → Result (Unit {0}) × World
rename_node none old new w = (err not_exist, w)
rename_node (some (directory m)) old new w = move_directory (is_taken (w.files new)) old new w
rename_node (some n) old new w =
    (ok tt, record w { files = update (update w.files old none) new (some n) })

-- os.Rename. The new name may be a file or a link, which a file or a link takes the place of.
unfoldable pub rename : Bytes → Bytes → M (Unit {0})
rename old new = call (λ w.
    if is_directory (w.files new) then (err eexist, w) else rename_node (w.files old) old new w)

-- os.RemoveAll
unfoldable pub remove_all : Bytes → M (Unit {0})
remove_all p =
    call (λ w. (ok tt, record w { files = λ q. if is_within p q then none else w.files q }))

abbrev pub symlink_at : Option Node → Bytes → Bytes → World → Result (Unit {0}) × World
symlink_at none target p w = (ok tt, record w { files = update w.files p (some (link target)) })
symlink_at (some n) target p w = (err eexist, w)

-- os.Symlink(target, p)
unfoldable pub symlink : Bytes → Bytes → M (Unit {0})
symlink target p = call (λ w. symlink_at (w.files p) target p w)

abbrev pub mkdir_at : Option Node → Bytes → ℕ → World → Result (Unit {0}) × World
mkdir_at none p m w = (ok tt, record w { files = update w.files p (some (directory (w.mask m))) })
mkdir_at (some n) p m w = (err eexist, w)

-- os.Mkdir
unfoldable pub mkdir : Bytes → ℕ → M (Unit {0})
mkdir p m = call (λ w. mkdir_at (w.files p) p m w)

-- The path's ancestors and the path: what stands before each slash but a leading one, and the whole.
abbrev push_byte : ℕ → List Bytes → List Bytes
push_byte c [] = []
push_byte c (p ∷ ps) = (c ∷ p) ∷ push_byte c ps

unfoldable pub ancestors : Bytes → List Bytes
ancestors [] = [] ∷ []
ancestors (c ∷ s) = let rest = push_byte c (ancestors s) in if c == slash then [] ∷ rest else rest

abbrev make_missing : Option Node → Bytes → ℕ → World → Result (Unit {0}) × World
make_missing none p m w =
    (ok tt, record w { files = update w.files p (some (directory (w.mask m))) })
make_missing (some (directory k)) p m w = (ok tt, w)
make_missing (some (link t)) p m w = (ok tt, w)
make_missing (some (file k s)) p m w = (err enotdir, w)

unfoldable pub make_all : List Bytes → ℕ → World → Result (Unit {0}) × World
make_all [] m w = (ok tt, w)
make_all (p ∷ ps) m w =
    let (r, w') = if is_empty p then (ok tt, w) else make_missing (w.files p) p m w in
    elim r [ err e ↦ (err e, w') | ok _ ↦ make_all ps m w' ]

-- os.MkdirAll
unfoldable pub mkdir_all : Bytes → ℕ → M (Unit {0})
unfolding ancestors make_all
mkdir_all p m = call (λ w. make_all (ancestors p) m w)

-- The first suffix that gives a free name, and those that are left.
unfoldable pub fresh_suffix : Files → Bytes → List Bytes → Option (Bytes × List Bytes)
fresh_suffix files prefix [] = none
fresh_suffix files prefix (r ∷ rs) =
    let rest = fresh_suffix files prefix rs in
    if is_taken (files (prefix ++ r)) then rest else some (r, rs)

abbrev pub make_temp : Bytes → Option (Bytes × List Bytes) → World → Result Bytes × World
make_temp prefix none w = (err eexist, record w { random = [] })
make_temp prefix (some (r, rs)) w = (
  ok (prefix ++ r),
  record w { random = rs; files = update w.files (prefix ++ r) (some (file (w.mask 0o600) [])) },
)

-- How ioutil.TempFile joins the directory and the name.
unfoldable pub join_path : Bytes → Bytes → Bytes
unfolding has_suffix
join_path [] name = codes "/tmp/" ++ name
join_path (c ∷ d) name =
    if has_suffix (c ∷ d) (slash ∷ []) then (c ∷ d) ++ name else (c ∷ d) ++ slash ∷ name

-- The first drawn text that gives a free name between what stands before and behind it; an empty one is
-- never drawn.
unfoldable pub fresh_between : Files → Bytes → Bytes → List Bytes → Option (Bytes × List Bytes)
fresh_between files prefix suffix [] = none
fresh_between files prefix suffix (r ∷ rs) =
    let rest = fresh_between files prefix suffix rs in
    if is_empty r || is_taken (files (prefix ++ (r ++ suffix))) then rest else some (r, rs)

abbrev pub make_between : Bytes → Bytes → Option (Bytes × List Bytes) → World → Result Bytes × World
make_between prefix suffix none w = (err eexist, record w { random = [] })
make_between prefix suffix (some (r, rs)) w = (
  ok (prefix ++ (r ++ suffix)),
  record w {
    random = rs;
    files = update w.files (prefix ++ (r ++ suffix)) (some (file (w.mask 0o600) []));
  },
)

-- What stands before and behind the last `*` of a text that has one.
unfoldable pub around_star : Bytes → Option (Bytes × Bytes)
around_star [] = none
around_star (c ∷ s) = elim (around_star s) [
  | some (a, b) ↦ some (c ∷ a, b)
  | none ↦ if c == b'*' then some ([], s) else none
]

abbrev pub cut_at : Bytes → Option (Bytes × Bytes) → Bytes × Bytes
cut_at s none = (s, [])
cut_at s (some p) = p

-- What ioutil.TempFile puts before and behind the drawn text: that goes to the last `*` of the pattern, and
-- to its end if there is none.
abbrev pub cut_pattern : Bytes → Bytes × Bytes
cut_pattern s = cut_at s (around_star s)

-- ioutil.TempFile in a directory: an empty file under a name that was free.
unfoldable pub temp_file_in : Bytes → Bytes → M Bytes
unfolding join_path fresh_between around_star
temp_file_in dir pattern =
    let (prefix, suffix) = cut_pattern pattern in
    call (λ w.
      make_between (join_path dir prefix) suffix
        (fresh_between w.files (join_path dir prefix) suffix w.random) w)

-- ioutil.TempFile where the pattern has no `*`
unfoldable pub temp_file : Bytes → M Bytes
unfolding fresh_suffix
temp_file prefix = call (λ w. make_temp prefix (fresh_suffix w.files prefix w.random) w)

-- os.Chown
unfoldable pub chown : Bytes → Signed → Signed → M (Unit {0})
chown p uid gid = call (λ w. (ok tt, emit (owned p uid gid) w))

-- unix.Mknod; a device stands for an empty file.
abbrev pub mknod_at : Option Node → Bytes → ℕ → ℕ → World → Result (Unit {0}) × World
mknod_at none p mode dev w = (
  ok tt,
  emit (device_made p mode dev)
      (record w { files = update w.files p (some (file (w.mask mode) [])) }),
)
mknod_at (some n) p mode dev w = (err eexist, w)

unfoldable pub mknod : Bytes → ℕ → ℕ → M (Unit {0})
mknod p mode dev = call (λ w. mknod_at (w.files p) p mode dev w)

-- ioutil.TempDir: an empty directory under a name that was free.
abbrev pub make_temp_dir : Bytes → Option (Bytes × List Bytes) → World → Result Bytes × World
make_temp_dir prefix none w = (err eexist, record w { random = [] })
make_temp_dir prefix (some (r, rs)) w = (
  ok (prefix ++ r),
  record w { random = rs; files = update w.files (prefix ++ r) (some (directory (w.mask 0o700))) },
)

unfoldable pub temp_dir : Bytes → M Bytes
unfolding fresh_suffix
temp_dir prefix = call (λ w. make_temp_dir prefix (fresh_suffix w.files prefix w.random) w)
