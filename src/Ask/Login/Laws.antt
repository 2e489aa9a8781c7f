-- ===== src/Ask/Login/Laws.antt =====
-- What hashing the password leaves and what it returns.
use edgi_os.Base.{
  Bool, true, false, Bytes, codes, ℕ, List, [], ◌∷◌, ◌++◌, Option, none, some, ◌≡◌, refl, arith,
  bytes_discrete, ◌⊎◌, same, Bool-cases, inl, inr,
}
use edgi_os.Base.Strings.{split, scan_lines}
use edgi_os.Os.World.{Error, message, Result, ok, err, file, World, Outcome, ran, defer, ◌>>=◌}
use edgi_os.Os.Files.{read_file, write_file, follow}
use edgi_os.Os.Process.{run}
use edgi_os.Config.Types.{CloudConfig}
use edgi_os.Ask.{set_edgi}
use edgi_os.Ask.Login.{shadow, hash_password, entry_password, shadow_password}

-- The line is one of the user `edgi`, and the field behind the name is the password.
pub IsEntry : Bytes → Bytes → Type 0
IsEntry l hash = (more : List Bytes) × (split l b':' ≡ codes "edgi" ∷ hash ∷ more)

-- The password stands in the first line of the user, and there is none if no line is the user's.
pub FirstEntry : List Bytes → Option Bytes → Type 0
FirstEntry [] o = o ≡ none
FirstEntry (l ∷ ls) o =
    ((hash : Bytes) × IsEntry l hash × (o ≡ some hash))
    ⊎ (((hash : Bytes) → ¬ IsEntry l hash) × FirstEntry ls o)

EntryBy : Bytes → Option Bytes → Type 0
EntryBy l (some hash) = IsEntry l hash
EntryBy l none = (hash : Bytes) → ¬ IsEntry l hash

entry_password-EntryBy :
    (l : Bytes) (fs : List Bytes) → split l b':' ≡ fs → EntryBy l (entry_password fs)
unfolding EntryBy IsEntry bytes_discrete
entry_password-EntryBy l [] e = λ hash (more, h). cc
entry_password-EntryBy l (name ∷ []) e = λ hash (more, h). cc
entry_password-EntryBy l (name ∷ hash ∷ more) e = elim (Bool-cases (same name (codes "edgi"))) [
  | inl y ↦
      let own : name ≡ codes "edgi" = ground arith in
      rw (y, entry_password) (more, rw e (rw own refl))
  | inr n ↦ rw (n, entry_password) (λ hash (more, h). ground arith)
]

by_entry :
    (l : Bytes) (ls : List Bytes) (o : Option Bytes)
    → EntryBy l o
    → FirstEntry ls (shadow_password ls)
    → entry_password (split l b':') ≡ o
    → FirstEntry (l ∷ ls) (shadow_password (l ∷ ls))
unfolding EntryBy FirstEntry shadow_password
by_entry l ls (some hash) h k e = inl (hash, h, rw (e, shadow_password) refl)
by_entry l ls none h k e = inr (h, rw (e, shadow_password) k)

shadow_password-FirstEntry : (ls : List Bytes) → FirstEntry ls (shadow_password ls)
unfolding FirstEntry shadow_password
shadow_password-FirstEntry [] = refl
shadow_password-FirstEntry (l ∷ ls) =
    by_entry l ls (entry_password (split l b':')) (entry_password-EntryBy l _ refl)
      (shadow_password-FirstEntry ls) refl

-- What is learned from the end of chpasswd, the user's line, and whether the file has a line that is too long.
pub learned : CloudConfig → Option Error → Option Bytes → Bool → Result CloudConfig
learned cfg (some e) hash long = err e
learned cfg none (some hash) long = ok (set_edgi cfg (record cfg.edgi { password = hash }))
learned cfg none none true = err (message (codes "bufio.Scanner: token too long"))
learned cfg none none false = ok cfg

hash_password-learned :
    (cfg : CloudConfig) (pass old new : Bytes) (m k : ℕ) (o : Outcome) (more : List Outcome)
    (w : World)
    → w.faults ≡ []
    → w.files shadow ≡ some (file m old)
    → w.outcomes ≡ o ∷ more
    → o.effect w.files shadow ≡ some (file k new)
    → let (r, w') = hash_password cfg pass w in
      (r ≡ learned cfg o.failure (shadow_password (scan_lines new).0) (scan_lines new).1)
      × (w'.files shadow ≡ some (file k old))
      × (w'.trace ≡ w.trace ++ ran (codes "chpasswd") [] (codes "edgi:" ++ pass) [] ∷ [])
unfolding hash_password read_file write_file run defer follow ◌>>=◌ bytes_discrete learned
hash_password-learned cfg pass old new m k o more w f s e h = ground arith

-- Where no call on files fails: whatever chpasswd did to the file of passwords, as long as a file is
-- left, its content is the old one again, also when chpasswd failed; nothing else was run. The result
-- is the failure of chpasswd, or the configuration with the password of the first line of `edgi`
-- among the lines that the scanner finds in the file that it left; without such a line it is the
-- configuration as it was, or an error for a line that is too long.
pub hash_password-restores :
    (cfg : CloudConfig) (pass old new : Bytes) (m k : ℕ) (o : Outcome) (more : List Outcome)
    (w : World)
    → w.faults ≡ []
    → w.files shadow ≡ some (file m old)
    → w.outcomes ≡ o ∷ more
    → o.effect w.files shadow ≡ some (file k new)
    → let (r, w') = hash_password cfg pass w in
      ((found : Option Bytes) × FirstEntry (scan_lines new).0 found
        × (r ≡ learned cfg o.failure found (scan_lines new).1))
      × (w'.files shadow ≡ some (file k old))
      × (w'.trace ≡ w.trace ++ ran (codes "chpasswd") [] (codes "edgi:" ++ pass) [] ∷ [])
hash_password-restores cfg pass old new m k o more w f s e h =
    let (r, back, trace) = hash_password-learned cfg pass old new m k o more w f s e h in
    ((_, shadow_password-FirstEntry (scan_lines new).0, r), back, trace)
