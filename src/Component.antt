-- ===== src/Component.antt =====
-- pkg/system/component.go. A component is a directory that holds its versions, and the links `current`
-- and `previous` to two of them.
pub mod Apart
pub mod Laws
use edgi_os.Base.{
  Bytes, codes, ℕ, Bool, true, false, List, [], ◌∷◌, ◌++◌, Option, none, some, same, if◌then◌else◌,
}
use edgi_os.Base.Paths.{path_join, split_path, base}
use edgi_os.Os.World.{
  Error, message, Result, ok, err, Node, file, directory, link, M, pure, raise, attempt, defer, log,
  when, ◌>>=◌, ◌>>◌,
}
use edgi_os.Os.Logged.{logged}
use edgi_os.Os.Files.{stat, readlink, chmod}
use edgi_os.Os.Tree.{symlink, temp_dir, join_path, remove, remove_all, rename}

-- What os.Stat says of a version: the name and the permissions.
pub record Info : Type 0 where
  pub name : Bytes
  pub mode : ℕ

-- Both results of StatComponentVersion: a version that is no directory comes with its information
-- and with an error.
pub data Version : Type 0 where
  absent : Error → Version
  misplaced : Info → Error → Version
  found : Info → Version

abbrev pub not_directory : Bytes → Error
not_directory path = message (codes "stat " ++ (path ++ codes ": not a directory"))

abbrev pub mode_of : Node → ℕ
mode_of (file m s) = m
mode_of (directory m) = m
mode_of (link t) = 0o777

abbrev pub version_from : Bytes → Result Node → Version
version_from path (err e) = absent e
version_from path (ok (directory m)) = found (record { name = base path; mode = m })
version_from path (ok n) =
    misplaced (record { name = base path; mode = mode_of n }) (not_directory path)

abbrev pub version_at : Bytes → Bytes → Result Bytes → M Version
version_at root key (err e) = pure (absent e)
version_at root key (ok version) = do
  info ← attempt (stat (path_join (root ∷ key ∷ version ∷ [])))
  pure (version_from (path_join (root ∷ key ∷ version ∷ [])) info)

abbrev pub alias_from : Bytes → Bytes → Bytes → Result Node → M Version
alias_from root key path (err e) = pure (absent e)
alias_from root key path (ok (directory m)) = do
  version ← attempt (readlink path)
  version_at root key version
alias_from root key path (ok n) = pure (absent (not_directory path))

-- StatComponentVersion, for the alias `current`
unfoldable pub stat_component : Bytes → Bytes → M Version
stat_component root key = do
  info ← attempt (stat (path_join (root ∷ key ∷ codes "current" ∷ [])))
  alias_from root key (path_join (root ∷ key ∷ codes "current" ∷ [])) info

abbrev pub need_version : Version → M Info
need_version (found i) = pure i
need_version (misplaced i e) = raise e
need_version (absent e) = raise e

-- Whether the destination has the version, by its name alone.
abbrev pub is_named : Bytes → Version → Bool
is_named name (found i) = same i.name name
is_named name (misplaced i e) = same i.name name
is_named name (absent e) = false

-- The paths that a copy works on.
pub record Places : Type 0 where
  pub source : Bytes
  pub target : Bytes
  pub previous : Bytes
  pub current : Bytes

abbrev pub places : Bytes → Bytes → Bytes → Bytes → Places
places src dst key name = record {
  source = path_join (src ∷ key ∷ name ∷ []);
  target = path_join (dst ∷ key ∷ name ∷ []);
  previous = path_join (dst ∷ key ∷ codes "previous" ∷ []);
  current = path_join (dst ∷ key ∷ codes "current" ∷ []);
}

abbrev pub current_temp : Places → Bytes
current_temp p = p.current ++ codes ".tmp"

-- Where a version that is in the way is moved.
abbrev pub aside : Places → Bytes
aside p = p.target ++ codes ".old"

-- The directory and the pattern of the temporary name, as ioutil.TempDir joins them.
abbrev pub temp_place : Places → Bytes
temp_place p = join_path (split_path p.target).0 (split_path p.target).1

-- copy.Copy of the copying library, and mount.Mount of the docker library
module _ (copy : Bytes → Bytes → M (Unit {0}))
    (mount : Bytes → Bytes → Bytes → Bytes → M (Unit {0})) where
  -- The new version is in its place: `current` is kept as `previous`, and moves over.
  unfoldable pub switch_current : Places → M (Unit {0})
  switch_current p = do
    logged (remove p.previous)
    logged (copy p.current p.previous)
    rename (current_temp p) p.current

  unfoldable pub place_version : Places → ℕ → Bytes → M Bool
  unfolding switch_current
  place_version p mode temp = do
    rename temp p.target
    logged (chmod p.target mode)
    switch_current p
    pure true

  -- A directory in the way is moved aside, and back in the end if its place is free; anything else is removed.
  abbrev pub place_over : Places → ℕ → Bytes → Result Node → M Bool
  place_over p mode temp (ok (directory m)) = do
    rename p.target (aside p)
    defer (rename (aside p) p.target) (place_version p mode temp)
  place_over p mode temp (ok n) = do attempt (remove p.target); place_version p mode temp
  place_over p mode temp (err e) = place_version p mode temp

  unfoldable pub fill_version : Places → ℕ → Bytes → M Bool
  unfolding place_version
  fill_version p mode temp = do
    copy p.source temp
    there ← attempt (stat p.target)
    place_over p mode temp there

  unfoldable pub copy_version : Places → ℕ → M Bool
  unfolding fill_version
  copy_version p mode = do
    symlink (base p.target) (current_temp p)
    defer (remove (current_temp p))
        (do temp ← temp_dir (temp_place p); defer (remove_all temp) (fill_version p mode temp))

  -- CopyComponent: whether something was copied
  unfoldable pub copy_component : Bytes → Bytes → Bool → Bytes → M Bool
  unfolding stat_component copy_version
  copy_component src dst remount key = do
    there ← stat_component src key
    info ← need_version there
    here ← stat_component dst key
    if is_named info.name here
        then (do log (codes "skipping because destination version matches source"); pure false)
        else (do
          when remount (mount [] dst (codes "none") (codes "remount,rw"))
          copy_version (places src dst key info.name) info.mode)
