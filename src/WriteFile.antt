-- ===== src/WriteFile.antt =====
-- pkg/writefile/writefile.go
pub mod Laws
use edgi_os.Base.{
  Bytes, codes, ℕ, Bool, true, false, List, [], ◌∷◌, ◌++◌, Option, is_empty, if◌then◌else◌,
}
use edgi_os.Base.Paths.{path_join, dir}
use edgi_os.Os.World.{
  Error, message, Result, ok, err, M, pure, raise, lift, attempt, log, for_each, ◌>>=◌, ◌>>◌,
}
use edgi_os.Os.Files.{close, chmod, syscall_mode}
use edgi_os.Os.Tree.{temp_file, join_path, rename}
use edgi_os.Os.Files
use edgi_os.Os.Process.{run}
use edgi_os.Util.Calls.{ensure_directory_exists}
use edgi_os.Util.Decode.{decode_content}
use edgi_os.Config.Types.{File, CloudConfig, permissions}

-- The owner is set by a command that is run.
unfoldable pub set_owner : Bytes → Bytes → M Bytes
set_owner owner tmp =
    if is_empty owner then pure [] else run (codes "chown") (owner ∷ tmp ∷ []) [] []

-- The temporary file is filled and gets its permissions.
unfoldable pub fill_file : Bytes → ℕ → Bytes → M (Unit {0})
unfolding syscall_mode
fill_file content perm tmp = do
  Files.write_file tmp content perm
  close tmp
  chmod tmp (syscall_mode perm)

-- It gets its owner and moves to the path.
unfoldable pub place_file : Bytes → Bytes → Bytes → M Bytes
unfolding set_owner
place_file owner p tmp = do set_owner owner tmp; rename tmp p; pure p

unfoldable pub finish_file : File → Bytes → ℕ → Bytes → M Bytes
unfolding fill_file place_file
finish_file f p perm tmp = do fill_file f.content perm tmp; place_file f.owner p tmp

unfoldable pub write_plain : File → Bytes → M Bytes
unfolding finish_file
write_plain f p = do
  log (codes "writing file to " ++ dir p)
  ensure_directory_exists (dir p)
  perm ← lift (permissions f)
  tmp ← temp_file (join_path (dir p) (codes "wfs-temp"))
  finish_file f p perm tmp

unfoldable pub write_file : File → Bytes → M Bytes
unfolding write_plain
write_file f root =
    if is_empty f.encoding
    then write_plain f (path_join (root ∷ f.path ∷ []))
    else raise (message (codes "unable to write file with encoding " ++ f.encoding))

abbrev pub report : Result Bytes → M (Unit {0})
report (ok p) = log (codes "wrote file " ++ p ++ codes " to filesystem")
report (err e) = log (codes "failed to write file")

module _ (gunzip : Bytes → Option Bytes) where
  abbrev pub write_decoded : File → Result Bytes → M (Unit {0})
  write_decoded f (err e) = log (codes "failed to decode content from write_files item")
  write_decoded f (ok c) = do
    r ← attempt (write_file (record f { content = c; encoding = [] }) (codes "/"))
    report r

  unfoldable pub write_files : CloudConfig → M (Unit {0})
  write_files cfg =
      for_each cfg.write_files (λ f. write_decoded f (decode_content gunzip f.content f.encoding))
