-- ===== src/Util/Atomic.antt =====
-- WriteFileAtomic of pkg/util/util.go.
pub mod Laws
use edgi_os.Base.{Bytes, ℕ, ◌∷◌}
use edgi_os.Base.Paths.{split_path}
use edgi_os.Os.World.{M, defer, ◌>>=◌, ◌>>◌}
use edgi_os.Os.Files.{write_open, close, chmod}
use edgi_os.Os.Tree.{temp_file_in, rename, remove}

unfoldable pub replace_by : Bytes → Bytes → ℕ → Bytes → M (Unit {0})
replace_by filename bytes perm temp = do
  write_open temp bytes
  close temp
  chmod temp perm
  rename temp filename

unfoldable pub write_file_atomic : Bytes → Bytes → ℕ → M (Unit {0})
unfolding replace_by split_path
write_file_atomic filename bytes perm = do
  temp ← temp_file_in (split_path filename).0 (b'.' ∷ (split_path filename).1)
  defer (remove temp) (replace_by filename bytes perm temp)
