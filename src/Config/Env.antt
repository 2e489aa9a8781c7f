-- ===== src/Config/Env.antt =====
-- mapToEnv of pkg/config/read.go and toYAMLKeys of pkg/config/write.go. `convert.ToYAMLKey` of the
-- mapper library is a parameter.
use edgi_os.Base.{Bytes, codes, true, false, List, [], ◌∷◌, ◌++◌, map, same, if◌then◌else◌}
use edgi_os.Base.Strings.{to_upper, join}
use edgi_os.Config.Values.{
  Value, text, truth, texts, text_map, list, map_of, scalar, Values, no_value, value, Fields,
  no_field, field, put, delete,
}

abbrev pub braced : Bytes → List Bytes → Bytes → Bytes
braced opening parts closing = opening ++ (join parts (codes " ") ++ closing)

-- What `%v` prints for a value.
unfoldable mutual
  unfolding join

  pub show : Value → Bytes
  show (text s) = s
  show (truth true) = codes "true"
  show (truth false) = codes "false"
  show (texts ss) = braced (codes "[") ss (codes "]")
  show (text_map es) = braced (codes "map[") (map (λ (k, v). k ++ b':' ∷ v) es) (codes "]")
  show (list vs) = braced (codes "[") (show_values vs) (codes "]")
  show (map_of fs) = braced (codes "map[") (show_fields fs) (codes "]")
  show (scalar s) = s

  pub show_values : Values → List Bytes
  show_values no_value = []
  show_values (value v vs) = show v ∷ show_values vs

  pub show_fields : Fields → List Bytes
  show_fields no_field = []
  show_fields (field k v fs) = (k ++ b':' ∷ show v) ∷ show_fields fs

module _ (to_yaml_key : Bytes → Bytes) where
  unfoldable pub key_name : Bytes → Bytes → Bytes
  key_name prefix k = to_upper (prefix ++ to_yaml_key k)

  unfoldable mutual
    unfolding key_name

    -- The variables of one entry, and of the entries of a map.
    pub value_env : Value → Bytes → List Bytes
    value_env (map_of fs) name = fields_env fs (name ++ codes "_")
    value_env (text s) name = (name ++ b'=' ∷ s) ∷ []
    value_env (truth b) name = (name ++ b'=' ∷ show (truth b)) ∷ []
    value_env (texts ss) name = (name ++ b'=' ∷ show (texts ss)) ∷ []
    value_env (text_map es) name = (name ++ b'=' ∷ show (text_map es)) ∷ []
    value_env (list vs) name = (name ++ b'=' ∷ show (list vs)) ∷ []
    value_env (scalar s) name = (name ++ b'=' ∷ s) ∷ []

    pub fields_env : Fields → Bytes → List Bytes
    fields_env no_field prefix = []
    fields_env (field k v fs) prefix = value_env v (key_name prefix k) ++ fields_env fs prefix

  unfoldable pub map_to_env : Bytes → Fields → List Bytes
  map_to_env prefix fields = fields_env fields prefix

  abbrev pub rename_key : Bytes → Value → Fields → Fields
  rename_key k v fields =
      if same (to_yaml_key k) k then fields else put (to_yaml_key k) v (delete k fields)

  -- The loop over the entries that the map had at its start.
  unfoldable pub rename_all : Fields → Fields → Fields
  rename_all no_field fields = fields
  rename_all (field k v fs) fields = rename_all fs (rename_key k v fields)

  -- The sub-maps are renamed where they stand, and then the keys of the map.
  unfoldable mutual
    pub yaml_keys_in : Value → Value
    yaml_keys_in (map_of fs) = map_of (rename_all (yaml_keys_below fs) (yaml_keys_below fs))
    yaml_keys_in (text s) = text s
    yaml_keys_in (truth b) = truth b
    yaml_keys_in (texts ss) = texts ss
    yaml_keys_in (text_map es) = text_map es
    yaml_keys_in (list vs) = list vs
    yaml_keys_in (scalar s) = scalar s

    pub yaml_keys_below : Fields → Fields
    yaml_keys_below no_field = no_field
    yaml_keys_below (field k v fs) = field k (yaml_keys_in v) (yaml_keys_below fs)

  -- toYAMLKeys
  unfoldable pub to_yaml_keys : Fields → Fields
  unfolding rename_all
  to_yaml_keys fields = rename_all (yaml_keys_below fields) (yaml_keys_below fields)
