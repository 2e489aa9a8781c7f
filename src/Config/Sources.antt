-- ===== src/Config/Sources.antt =====
-- pkg/config/read_cc.go: the configuration that a cloud hands over.
pub mod Laws
use edgi_os.Base.{
  Bytes, codes, ℕ, Bool, true, false, ◌||◌, List, [], ◌∷◌, ◌++◌, map, Option, none, some, is_empty,
  has_prefix, ◌==◌, if◌then◌else◌,
}
use edgi_os.Base.Strings.{split, trim_space}
use edgi_os.Os.World.{Error, not_exist, Result, ok, err, M, pure, raise, lift, attempt, ◌>>=◌}
use edgi_os.Os.Files.{read_file}
use edgi_os.Util.Base64
use edgi_os.Config.Types.{File, CloudConfig, Edgi}
use edgi_os.Config.Values.{Value, text, texts, Fields, no_field, field, put}

unfoldable pub key_lines : List Bytes → List Bytes
key_lines [] = []
key_lines (l ∷ ls) =
    let rest = key_lines ls in
    let line = trim_space l in if is_empty line then rest else line ∷ rest

abbrev pub with_hostname : Result Bytes → Fields
with_hostname (ok s) = field (codes "hostname") (text (trim_space s)) no_field
with_hostname (err e) = no_field

abbrev pub put_keys : List Bytes → Fields → Fields
put_keys [] fields = fields
put_keys (k ∷ ks) fields = put (codes "ssh_authorized_keys") (texts (k ∷ ks)) fields

abbrev pub with_keys : Result Bytes → Fields → Fields
with_keys (ok s) fields = put_keys (key_lines (split s 10)) fields
with_keys (err e) fields = fields

-- readCloudConfig: files that cannot be read add nothing.
unfoldable pub read_cloud_config : M Fields
unfolding key_lines
read_cloud_config = do
  name ← attempt (read_file (codes "/run/config/local_hostname"))
  keys ← attempt (read_file (codes "/run/config/ssh/authorized_keys"))
  pure (with_keys keys (with_hostname name))

abbrev pub has_nul : Bytes → Bool
has_nul [] = false
has_nul (c ∷ s) = c == 0 || has_nul s

-- The file that a script is written to.
abbrev pub script_file : Bytes → Bytes → File
script_file content encoding = record {
  encoding = encoding;
  content = content;
  owner = codes "root";
  path = codes "/run/edgi/userdata";
  raw_file_permissions = codes "0700";
}

-- User data that is a script: binary data, and text that begins with `#!`.
unfoldable pub user_script : Bytes → Option File
user_script data_bytes =
    if has_nul data_bytes
    then some (script_file (Base64.encode data_bytes) (codes "b64"))
    else if has_prefix data_bytes (codes "#!")
    then some (script_file data_bytes [])
    else none

abbrev pub empty_edgi : Edgi
empty_edgi = record {
  data_sources = [];
  modules = [];
  sysctls = [];
  ntp_servers = [];
  dns_nameservers = [];
  wifi = [];
  password = [];
  server_url = [];
  token = [];
  labels = [];
  k3s_args = [];
  environment = [];
  taints = [];
  install = none;
}

abbrev pub script_config : File → CloudConfig
script_config f = record {
  ssh_authorized_keys = [];
  write_files = f ∷ [];
  hostname = [];
  edgi = empty_edgi;
  runcmd = codes "source /run/edgi/userdata" ∷ [];
  bootcmd = [];
  initcmd = [];
}

-- `convert.EncodeToMap` and `yaml.Unmarshal` are parameters.
module _ (encode_to_map : CloudConfig → Result Fields) (unmarshal : Bytes → Result Fields) where
  abbrev pub user_fields : Bytes → Option File → Result Fields
  user_fields s none = unmarshal s
  user_fields s (some f) = encode_to_map (script_config f)

  abbrev pub user_data_from : Result Bytes → M Fields
  user_data_from (ok s) = lift (user_fields s (user_script s))
  user_data_from (err not_exist) = pure no_field
  user_data_from (err e) = raise e

  unfoldable pub read_user_data : M Fields
  read_user_data = do s ← attempt (read_file (codes "/run/config/userdata")); user_data_from s
