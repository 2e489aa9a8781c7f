-- ===== src/Os/Files.antt =====
-- The calls of `os` and `ioutil` on files. Links are followed at the last element of a path.
use edgi_os.Base.{Bytes, ℕ, zero, suc, Bool, true, false, [], ◌∷◌, ◌++◌, Option, none, some}
use Prim.Native.Nat.{bit_and}
use edgi_os.Base.{◌+◌, ◌/◌, ◌%◌, ◌==◌, same, if◌then◌else◌, take}
use edgi_os.Base.Paths.{slash, split_path, path_join}
use edgi_os.Os.World.{
  Error, not_exist, errno, Result, ok, err, Node, file, directory, link, Files, Fault, fine, fail,
  short, World, M, call, charge, head_fault,
}

abbrev pub update : Files → Bytes → Option Node → Files
update files p n q = if same p q then n else files q

abbrev set_files : Files → World → World
set_files files w = record w { files = files }

-- The path that a link at `p` with this target leads to.
abbrev pub link_path : Bytes → Bytes → Bytes
link_path p [] = p
link_path p (c ∷ t) = if c == slash then c ∷ t else path_join ((split_path p).0 ∷ (c ∷ t) ∷ [])

-- The path behind the links at `p`; after forty of them the kernel gives up.
unfoldable pub follow : ℕ → Files → Bytes → Option Bytes
follow zero files p = none
follow (suc n) files p = elim (files p) [
  | some (link t) ↦ follow n files (link_path p t)
  | _ ↦ some p
]

abbrev pub max_links : ℕ
max_links = 40

-- EISDIR, ENOTDIR, EEXIST, ELOOP, EINVAL, ENOTEMPTY
abbrev pub eisdir : Error
eisdir = errno 21

abbrev pub enotdir : Error
enotdir = errno 20

abbrev pub eexist : Error
eexist = errno 17

abbrev pub eloop : Error
eloop = errno 40

abbrev einval : Error
einval = errno 22

abbrev pub enotempty : Error
enotempty = errno 39

abbrev pub found : Option Node → Result Node
found none = err not_exist
found (some n) = ok n

abbrev pub node_behind : Files → Option Bytes → Result Node
node_behind files none = err eloop
node_behind files (some q) = found (files q)

-- os.Stat
unfoldable pub stat : Bytes → M Node
unfolding follow
stat p = call (λ w. (node_behind w.files (follow max_links w.files p), w))

-- os.Lstat
unfoldable pub lstat : Bytes → M Node
lstat p = call (λ w. (found (w.files p), w))

abbrev pub content : Result Node → Result Bytes
content (ok (file m s)) = ok s
content (ok (directory m)) = err eisdir
content (ok (link t)) = err eloop
content (err e) = err e

-- ioutil.ReadFile
unfoldable pub read_file : Bytes → M Bytes
unfolding follow
read_file p = call (λ w. (content (node_behind w.files (follow max_links w.files p)), w))

abbrev pub link_target : Option Node → Result Bytes
link_target none = err not_exist
link_target (some (link t)) = ok t
link_target (some _) = err einval

-- os.Readlink
unfoldable pub readlink : Bytes → M Bytes
readlink p = call (λ w. (link_target (w.files p), w))

-- The file after a write: its permissions stay, those of a new file pass the umask.
abbrev pub written : (ℕ → ℕ) → ℕ → Bytes → Option Node → Node
written mask perm s none = file (mask perm) s
written mask perm s (some (file m old)) = file m s
written mask perm s (some n) = file (mask perm) s

abbrev pub is_directory : Option Node → Bool
is_directory (some (directory m)) = true
is_directory _ = false

abbrev pub store_at :
    Option Bytes → Bytes → ℕ → Result (Unit {0}) → World → Result (Unit {0}) × World
store_at none s perm r w = (err eloop, w)
store_at (some q) s perm r w =
    if is_directory (w.files q)
    then (err eisdir, w)
    else (r, record w { files = update w.files q (some (written w.mask perm s (w.files q))) })

abbrev pub write_under : Fault → Bytes → Bytes → ℕ → World → Result (Unit {0}) × World
write_under fine p s perm w = store_at (follow max_links w.files p) s perm (ok tt) w
write_under (fail e) p s perm w = (err e, w)
write_under (short n e) p s perm w = store_at (follow max_links w.files p) (take n s) perm (err e) w

-- ioutil.WriteFile: truncates the file or makes it, and writes the data.
unfoldable pub write_file : Bytes → Bytes → ℕ → M (Unit {0})
unfolding follow
write_file p s perm w = write_under (head_fault w.faults) p s perm (charge w)

abbrev pub append_at :
    Option Node → Bytes → Bytes → Result (Unit {0}) → World → Result (Unit {0}) × World
append_at (some (file m old)) p s r w =
    (r, record w { files = update w.files p (some (file m (old ++ s))) })
append_at _ p s r w = (r, w)

abbrev pub append_under : Fault → Bytes → Bytes → World → Result (Unit {0}) × World
append_under fine p s w = append_at (w.files p) p s (ok tt) w
append_under (fail e) p s w = (err e, w)
append_under (short n e) p s w = append_at (w.files p) p (take n s) (err e) w

-- (*os.File).Write on an open file; the file stands for its path.
unfoldable pub write_open : Bytes → Bytes → M (Unit {0})
write_open p s w = append_under (head_fault w.faults) p s (charge w)

-- (*os.File).Close
unfoldable pub close : Bytes → M (Unit {0})
close p = call (λ w. (ok tt, w))

-- os.OpenFile with O_RDWR, O_CREATE and O_TRUNC
unfoldable pub open_truncated : Bytes → ℕ → M (Unit {0})
unfolding follow
open_truncated p perm = call (λ w. store_at (follow max_links w.files p) [] perm (ok tt) w)

-- os.Create
unfoldable pub create : Bytes → M (Unit {0})
unfolding follow
create p = call (λ w. store_at (follow max_links w.files p) [] 0o666 (ok tt) w)

abbrev pub with_mode : ℕ → Node → Node
with_mode m (file _ s) = file m s
with_mode m (directory _) = directory m
with_mode m (link t) = link t

abbrev pub chmod_at : Option Bytes → ℕ → World → Result (Unit {0}) × World
chmod_at none m w = (err eloop, w)
chmod_at (some q) m w = elim (w.files q) [
  | none ↦ (err not_exist, w)
  | some n ↦ (ok tt, record w { files = update w.files q (some (with_mode m n)) })
]

abbrev pub bit : ℕ → ℕ → ℕ → ℕ
bit flag value perm = if perm / flag % 2 == 1 then value else 0

-- What os.Chmod makes of a numeric os.FileMode: the nine low bits, and the bits of setuid, setgid and
-- sticky for the flags that Go has for them, which are not those of chmod(2).
unfoldable pub syscall_mode : ℕ → ℕ
syscall_mode perm =
    bit_and perm 0o777
    + bit 0x800000 0o4000 perm
    + bit 0x400000 0o2000 perm
    + bit 0x100000 0o1000 perm

-- os.Chmod with a mode that chmod(2) takes as it is
unfoldable pub chmod : Bytes → ℕ → M (Unit {0})
unfolding follow
chmod p m = call (λ w. chmod_at (follow max_links w.files p) m w)
