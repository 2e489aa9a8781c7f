-- ===== src/Cc/Environment/Laws.antt =====
-- Which value of a variable counts.
use edgi_os.Base.{Bytes, [], ◌∷◌, Option, none, some, same, ◌≡◌, refl, arith, if◌then◌else◌}
use edgi_os.Config.Types.{Entries}
use edgi_os.Cc.Environment.{lookup, insert, insert_all}

-- No name stands twice, as in a map of Go.
abbrev pub IsMap : Entries → Type 0
IsMap [] = Unit
IsMap ((k, v) ∷ m) = (lookup k m ≡ none) × IsMap m

-- The configured value, and where there is none the old one.
unfoldable pub prefer : Option Bytes → Option Bytes → Option Bytes
prefer none old = old
prefer (some v) old = some v

lookup-insert :
    (k j v : Bytes) (m : Entries)
    → lookup k (insert j v m) ≡ (if same j k then some v else lookup k m)
unfolding lookup insert
lookup-insert k j v [] = ground arith
lookup-insert k j v ((i, w) ∷ m) = ground (arith, lookup-insert k j v m)

pub insert-IsMap : (j v : Bytes) (m : Entries) → IsMap m → IsMap (insert j v m)
unfolding lookup insert
insert-IsMap j v [] h = (refl, tt)
insert-IsMap j v ((i, w) ∷ m) (h, t) = ground (arith, insert-IsMap j v m t, lookup-insert i j v m)

-- The configured variables override those of the file, the others keep their value, and no name
-- stands twice in the result.
pub insert_all-overrides :
    (new old : Entries)
    → IsMap new
    → IsMap old
    → ((k : Bytes) → lookup k (insert_all new old) ≡ prefer (lookup k new) (lookup k old))
      × IsMap (insert_all new old)
unfolding insert_all lookup prefer
insert_all-overrides [] old h g = (λ k. refl, g)
insert_all-overrides ((j, v) ∷ new) old (fresh, h) g =
    let (found, maps) = insert_all-overrides new (insert j v old) h (insert-IsMap j v old g) in
    (λ k. ground (arith, found k, lookup-insert k j v old), maps)
