-- ===== src/Cc/Environment/Refines.antt =====
-- The variables of the machine as a map, and what ApplyEnvironment does to this map.
use edgi_os.Base.{
  Bytes, codes, ℕ, List, [], ◌∷◌, Option, none, some, same, All, ◌≡◌, ◌∙◌, refl, bytes_discrete,
  sym, ap, arith, Bool-cases, inl, inr,
}
use mathlib.Core.Path.{fun_ext, subst}
use edgi_os.Base.Strings.{scan_lines}
use edgi_os.Config.Types.{CloudConfig, Entries}
use edgi_os.Os.World.{
  Result, ok, err, Node, file, Files, World, charge, rest_faults, ◌>>=◌, not_exist,
}
use edgi_os.Os.Files.{read_file, write_file, follow, update, written}
use edgi_os.Cc.Environment.{
  lookup, insert, line_entry, insert_entry, read_lines, insert_all, render, file_entries,
  write_environment, apply_environment,
}
use edgi_os.Cc.Environment.Laws.{IsMap, prefer, insert-IsMap, insert_all-overrides}
use edgi_os.Cc.Environment.RoundTrip.{Writable, read_lines-render}

abbrev place : Bytes
place = codes "/etc/environment"

abbrev text_of : Option Node → Result Bytes
text_of (some (file mode text)) = ok text
text_of _ = err not_exist

-- The variables that the file sets.
pub variables : Files → Bytes → Option Bytes
variables files k = lookup k (file_entries (text_of (files place)))

-- What stands at the place of the file: nothing, or a file with a content that can be read.
pub data Stored : Option Node → Type 0 where
  absent : Stored none
  present : (mode : ℕ) (text : Bytes) → Stored (some (file mode text))

read_file-Stored :
    (o : Option Node) (w : World)
    → w.files place ≡ o
    → Stored o
    → w.faults ≡ []
    → read_file place w ≡ (text_of o, charge w)
unfolding read_file follow
read_file-Stored none w e absent f = ground (arith, e, f)
read_file-Stored (some n) w e (present mode text) f = ground (arith, e, f)

abbrev rewritten : Option Node → Bytes → World → World
rewritten o text w = record w { files = update w.files place (some (written w.mask 0o644 text o)) }

write_file-Stored :
    (o : Option Node) (w : World) (text : Bytes)
    → w.files place ≡ o
    → Stored o
    → w.faults ≡ []
    → write_file place text 0o644 w ≡ (ok tt, rewritten o text (charge w))
unfolding write_file follow
write_file-Stored none w text e absent f = ground (arith, e, f)
write_file-Stored (some n) w text e (present mode old) f = ground (arith, e, f)

write_environment-Stored :
    (new : Entries) (e : Bytes × Bytes) (o : Option Node) (w : World)
    → w.files place ≡ o
    → Stored o
    → w.faults ≡ []
    → write_environment (e ∷ new) w ≡ (
      ok tt,
      rewritten o (render (insert_all (e ∷ new) (file_entries (text_of o)))) (charge (charge w)),
    )
unfolding write_environment ◌>>=◌
write_environment-Stored new e o w h s f = rw (read_file-Stored o w h s f) (
    rw (
      write_file-Stored o (charge w) (render (insert_all (e ∷ new) (file_entries (text_of o)))) h s
        (ap rest_faults f)))

insert-All :
    (P : Bytes × Bytes → Type 0) (k v : Bytes) (m : Entries)
    → P (k, v)
    → All P m
    → All P (insert k v m)
unfolding insert
insert-All P k v [] p h = (p, tt)
insert-All P k v ((j, w) ∷ m) p (q, h) = elim (Bool-cases (same j k)) [
  | inl e ↦ rw (e, insert) (p, h)
  | inr n ↦ rw (n, insert) (q, insert-All P k v m p h)
]

insert_all-All :
    (P : Bytes × Bytes → Type 0) (new m : Entries) → All P new → All P m → All P (insert_all new m)
unfolding insert_all
insert_all-All P [] m h g = g
insert_all-All P ((k, v) ∷ new) m (p, h) g =
    insert_all-All P new (insert k v m) h (insert-All P k v m p g)

insert_entry-IsMap : (e : Option (Bytes × Bytes)) (m : Entries) → IsMap m → IsMap (insert_entry e m)
insert_entry-IsMap none m h = h
insert_entry-IsMap (some (k, v)) m h = insert-IsMap k v m h

read_lines-IsMap : (ls : List Bytes) (m : Entries) → IsMap m → IsMap (read_lines ls m)
unfolding read_lines
read_lines-IsMap [] m h = h
read_lines-IsMap (l ∷ ls) m h =
    read_lines-IsMap ls (insert_entry (line_entry l) m) (insert_entry-IsMap (line_entry l) m h)

file_entries-IsMap : (r : Result Bytes) → IsMap (file_entries r)
file_entries-IsMap (ok text) = read_lines-IsMap (scan_lines text).0 [] tt
file_entries-IsMap (err e) = tt

-- Nothing stands at the place of the file, or a file of lines that can be written.
unfoldable pub Clean : Files → Type 0
Clean files = Stored (files place) × All Writable (file_entries (text_of (files place)))

-- The specification: the configured variables override, the others are as they were.
pub overridden : Entries → (Bytes → Option Bytes) → Bytes → Option Bytes
overridden new old k = prefer (lookup k new) (old k)

-- The entries that a written file holds are those it was written from.
file_entries-render :
    (m : Entries) → All Writable m → file_entries (ok (render m)) ≡ insert_all m []
file_entries-render m h = read_lines-render m [] h

lookup-render :
    (m : Entries) (k : Bytes)
    → All Writable m
    → IsMap m
    → lookup k (file_entries (ok (render m))) ≡ lookup k m
unfolding prefer lookup insert_all
lookup-render m k h u =
    rw (file_entries-render m h) (ground (arith, (insert_all-overrides m [] u tt).0 k))

written_text :
    (o : Option Node) (perm : ℕ) (mask : ℕ → ℕ) (text : Bytes)
    → Stored o
    → (m : ℕ) × (written mask perm text o ≡ file m text)
written_text none perm mask text absent = (mask perm, refl)
written_text (some n) perm mask text (present m old) = (m, refl)

update-place : (files : Files) (n : Node) → update files place (some n) place ≡ some n
unfolding bytes_discrete
update-place files n = refl

variables-render :
    (files : Files) (mode : ℕ) (m : Entries) (k : Bytes)
    → files place ≡ some (file mode (render m))
    → All Writable m
    → IsMap m
    → variables files k ≡ lookup k m
unfolding variables
variables-render files mode m k e h u =
    ap (λ (o : Option Node). lookup k (file_entries (text_of o))) e ∙ lookup-render m k h u

pub render-Clean :
    (files : Files) (mode : ℕ) (m : Entries)
    → files place ≡ some (file mode (render m))
    → All Writable m
    → Clean files
unfolding Clean
render-Clean files mode m e h =
    subst (λ (o : Option Node). Stored o × All Writable (file_entries (text_of o))) (sym e)
      (
        present mode (render m),
        subst (All Writable) (sym (file_entries-render m h)) (insert_all-All Writable m [] h tt),
      )

-- The state after a run that meets no failure stands for the specification's map.
pub Refined : Entries → World → Result (Unit {0}) × World → Type 0
Refined new w (r, w') =
    (r ≡ ok tt)
    × (variables w'.files ≡ overridden new (variables w.files))
    × Clean w'.files
    × (w'.files ≡ update w.files place (w'.files place))

write_environment-refines :
    (new : Entries) (w : World)
    → All Writable new
    → IsMap new
    → Clean w.files
    → w.faults ≡ []
    → Refined new w (write_environment new w)
unfolding Refined Clean variables
write_environment-refines [] w h u c f =
    unfold write_environment ◌>>=◌ in
    (refl, unfold overridden prefer lookup in refl, c, fun_ext λ q. ground arith)
write_environment-refines (e ∷ new) w h u (s, g) f =
    let old = file_entries (text_of (w.files place)) in
    let m = insert_all (e ∷ new) old in
    let (found, maps) =
      insert_all-overrides (e ∷ new) old u (file_entries-IsMap (text_of (w.files place))) in
    let fits = insert_all-All Writable (e ∷ new) old h g in
    let (mode, text) = written_text (w.files place) 0o644 w.mask (render m) s in
    let stands =
      update-place w.files (written w.mask 0o644 (render m) (w.files place)) ∙ ap some text in
    let files = update w.files place (some (written w.mask 0o644 (render m) (w.files place))) in
    rw (write_environment-Stored new e (w.files place) w refl s f) (
      refl,
      (fun_ext
          λ k. variables-render files mode m k stands fits maps ∙ unfold overridden in found k),
      render-Clean files mode m stands fits,
      (fun_ext λ q. ground arith),
    )

-- Where no call fails, the configured variables have different names and can stand in lines, and
-- /etc/environment is absent or a file of such lines: the call succeeds, the variables that the
-- file then holds are the configured ones over the old ones, no other file changes, and the file
-- is again one of such lines.
pub apply_environment-refines :
    (cfg : CloudConfig) (w : World)
    → All Writable cfg.edgi.environment
    → IsMap cfg.edgi.environment
    → Clean w.files
    → w.faults ≡ []
    → Refined cfg.edgi.environment w (apply_environment cfg w)
unfolding apply_environment
apply_environment-refines cfg w h u c f = write_environment-refines cfg.edgi.environment w h u c f
