-- ===== src/Examples/Schema.antt =====
-- The schema of the configuration, and an installation that is configured.
use edgi_os.Base.{Bytes, codes, List, [], ◌∷◌, false, some, ◌≡◌, refl, All, bytes_discrete}
use edgi_os.Config.Types.{CloudConfig}
use edgi_os.Config.Values.{Fields, field, no_field, text}
use edgi_os.Examples.{config}
use edgi_os.Config.Values.{get}
use edgi_os.Config.Coerce
use edgi_os.Config.Coerce.{convert_fields, to_bool, SchemaField}
use edgi_os.Config.Coerce.Laws.{type_of, converted, convert_fields-typed}
use edgi_os.Config.Fuzzy
use edgi_os.Config.Fuzzy.Laws.{IsResolved, Leads, spellings, modify_schema-names}
use edgi_os.Config.Types.{Install}

abbrev silent_schema : List SchemaField
silent_schema = (codes "device", codes "string") ∷ (codes "silent", codes "boolean") ∷ []

abbrev silent_fields : Fields
silent_fields =
    field (codes "silent") (text (codes "true"))
      (field (codes "device") (text (codes "/dev/sda")) no_field)

convert_fields-typed_example :
    get
      (codes "silent")
      (convert_fields (Coerce.modify_schema (codes "boolean") to_bool silent_schema) silent_fields)
    ≡ converted
        (codes "boolean")
        to_bool
        (type_of (codes "silent") silent_schema)
        (get (codes "silent") silent_fields)
unfolding type_of bytes_discrete
convert_fields-typed_example =
    convert_fields-typed (codes "boolean") to_bool silent_schema silent_fields (codes "silent")
      (refl, (refl, tt))

abbrev schema_names : List Bytes
schema_names = codes "modules" ∷ codes "taints" ∷ []

modify_schema-names_example :
    All
      (λ f.
        All
          (λ k. IsResolved (λ s. s) schema_names k (Fuzzy.modify_schema (λ s. s) schema_names))
          (spellings (λ s. s) f))
      schema_names
    × Leads (λ s. s) schema_names (Fuzzy.modify_schema (λ s. s) schema_names)
modify_schema-names_example = modify_schema-names (λ s. s) schema_names

abbrev preset : Install
preset = record {
  force_efi = false;
  device = codes "/dev/sda";
  config_url = codes "http://x/config";
  silent = false;
  iso_url = [];
  power_off = false;
  no_format = false;
  debug = false;
  tty = [];
}

abbrev preset_config : CloudConfig
preset_config = record config { edgi = record config.edgi { install = some preset } }
