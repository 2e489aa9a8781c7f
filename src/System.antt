-- ===== src/System.antt =====
-- pkg/system/system.go and pkg/mode/mode.go: where the system keeps its files, and the mode it is in.
use edgi_os.Base.{Bytes, codes, List, [], ◌∷◌}
use edgi_os.Base.Paths.{path_join}
use edgi_os.Base.Strings.{trim_space}
use edgi_os.Os.World.{not_exist, Result, ok, err, M, pure, raise, attempt, ◌>>=◌}
use edgi_os.Os.Files.{read_file}

abbrev pub root_directory : Bytes
root_directory = codes "/edgi/system"

abbrev pub data_directory : Bytes
data_directory = codes "/edgi/data"

abbrev pub local_directory : Bytes
local_directory = codes "/var/lib/cmd/edgi"

abbrev pub state_directory : Bytes
state_directory = codes "/run/edgi"

abbrev pub root_path : List Bytes → Bytes
root_path elem = path_join (root_directory ∷ path_join elem ∷ [])

abbrev pub data_path : List Bytes → Bytes
data_path elem = path_join (data_directory ∷ path_join elem ∷ [])

abbrev pub local_path : List Bytes → Bytes
local_path elem = path_join (local_directory ∷ path_join elem ∷ [])

abbrev pub state_path : List Bytes → Bytes
state_path elem = path_join (state_directory ∷ path_join elem ∷ [])

-- An absent file means no mode.
abbrev pub mode_from : Result Bytes → M Bytes
mode_from (ok bytes) = pure (trim_space bytes)
mode_from (err not_exist) = pure []
mode_from (err e) = raise e

unfoldable pub mode : List Bytes → M Bytes
mode prefix = do
  bytes ← attempt (read_file (path_join (path_join prefix ∷ state_path (codes "mode" ∷ []) ∷ [])))
  mode_from bytes
