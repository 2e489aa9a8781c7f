-- ===== src/Config/Readers.antt =====
-- The sources of the configuration in pkg/config/read.go, in the order in which they are merged.
use edgi_os.Base.{Bytes, codes, List, [], ◌∷◌, Option}
use edgi_os.Os.World.{Result, M}
use edgi_os.System.{root_path, local_path}
use edgi_os.Config.Types.{CloudConfig}
use edgi_os.Config.Values.{Value, Fields}
use edgi_os.Config.Read.{Library, Reader, read_config, read_config_file}
use edgi_os.Config.Cmdline.{read_cmdline}
use edgi_os.Config.Sources.{read_cloud_config, read_user_data}

abbrev pub system_config : Bytes
system_config = root_path (codes "config.yaml" ∷ [])

abbrev pub local_config : Bytes
local_config = local_path (codes "config.yaml" ∷ [])

abbrev pub local_configs : Bytes
local_configs = local_path (codes "config.d" ∷ [])

-- The libraries, GetValue and PutValue of the mapper library, and its EncodeToMap
module _ (lib : Library) (get_value : Fields → List Bytes → Option Value)
    (put_value : Fields → Value → List Bytes → Fields)
    (encode_to_map : CloudConfig → Result Fields) where
  -- readSystemConfig and readLocalConfig
  unfoldable pub read_system_config : Reader
  read_system_config = read_config_file lib system_config

  unfoldable pub read_local_config : Reader
  read_local_config = read_config_file lib local_config

  unfoldable pub readers : List Reader
  unfolding read_system_config read_local_config read_cmdline read_cloud_config read_user_data
  readers =
      read_system_config
      ∷ read_cmdline get_value put_value
      ∷ read_local_config
      ∷ read_cloud_config
      ∷ read_user_data encode_to_map lib.unmarshal
      ∷ []

  -- ReadConfig, from what ioutil.ReadDir gives for config.d
  unfoldable pub read_configuration : Result (List Bytes) → M CloudConfig
  unfolding readers read_config
  read_configuration listing = read_config lib readers local_configs listing
