-- ===== src/Config/Write.antt =====
-- ToEnv of pkg/config/read.go, and PrintInstall, ToBytes and Write of pkg/config/write.go.
use edgi_os.Base.{Bytes, Option, none}
use edgi_os.Base.{codes, List, []}
use edgi_os.Os.World.{wrapped, Result, ok, err, M, pure, raise, lift, attempt, ◌>>=◌}
use edgi_os.Os.Process.{print}
use edgi_os.Config.Types.{CloudConfig, Install}
use edgi_os.Config.Values.{Fields}
use edgi_os.Config.Env.{map_to_env, to_yaml_keys}

-- What writing takes from the mapper and yaml libraries.
pub record Encoder : Type 0 where
  -- convert.EncodeToMap of the installation and of a configuration
  pub encode_install : Option Install → Result Fields
  pub encode : CloudConfig → Result Fields
  -- convert.ToYAMLKey
  pub to_yaml_key : Bytes → Bytes
  -- yaml.Marshal of a map and of a configuration
  pub marshal : Fields → Result Bytes
  pub marshal_config : CloudConfig → Result Bytes

abbrev pub without_install : CloudConfig → CloudConfig
without_install cfg = record cfg { edgi = record cfg.edgi { install = none } }

module _ (enc : Encoder) where
  unfoldable pub print_install : CloudConfig → M Bytes
  print_install cfg = do
    entries ← lift (enc.encode_install cfg.edgi.install)
    lift (enc.marshal (to_yaml_keys enc.to_yaml_key entries))

  unfoldable pub to_bytes : CloudConfig → M Bytes
  to_bytes cfg = do
    entries ← lift (enc.encode (without_install cfg))
    lift (enc.marshal (to_yaml_keys enc.to_yaml_key entries))

  abbrev pub write_bytes : Result Bytes → M (Unit {0})
  write_bytes (ok s) = print s
  write_bytes (err e) = raise (wrapped (codes "failed to marshal") e)

  -- Write, to the standard output
  unfoldable pub write_config : CloudConfig → M (Unit {0})
  unfolding to_bytes
  write_config cfg = do bytes ← attempt (to_bytes cfg); write_bytes bytes

  unfoldable pub to_env : CloudConfig → M (List Bytes)
  to_env cfg = do entries ← lift (enc.encode cfg); pure (map_to_env enc.to_yaml_key [] entries)
