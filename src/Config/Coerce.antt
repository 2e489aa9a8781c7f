-- ===== src/Config/Coerce.antt =====
-- pkg/config/coerce.go. `convert.ToString` of the mapper library is a parameter.
pub mod Laws
use edgi_os.Base.{Bytes, codes, List, [], ◌∷◌, ◌++◌, Option, none, some, same, if◌then◌else◌}
use edgi_os.Config.Types.{Entries}
use edgi_os.Config.Values.{
  Value, text, truth, texts, text_map, map_of, Fields, no_field, field, get, put,
}

abbrev pub Converter : Type 0
Converter = Value → Value

pub record FieldConverter : Type 0 where
  pub field_name : Bytes
  pub converter : Converter

abbrev pub put_converted : Bytes → Converter → Option Value → Fields → Fields
put_converted name c none fields = fields
put_converted name c (some v) fields = put name (c v) fields

-- fieldConverter.ToInternal, which never fails
unfoldable pub convert_field : FieldConverter → Fields → Fields
unfolding get put
convert_field f fields = put_converted f.field_name f.converter (get f.field_name fields) fields

-- typeConverter.ToInternal: the mapper library runs the converters of the fields from the last one
-- to the first.
unfoldable pub convert_fields : List FieldConverter → Fields → Fields
unfolding convert_field
convert_fields [] fields = fields
convert_fields (f ∷ fs) fields = convert_field f (convert_fields fs fields)

-- A field of the schema: its name and its type.
abbrev pub SchemaField : Type 0
SchemaField = Bytes × Bytes

-- typeConverter.ModifySchema: a converter for each field of the type.
unfoldable pub modify_schema : Bytes → Converter → List SchemaField → List FieldConverter
modify_schema kind c [] = []
modify_schema kind c ((name, t) ∷ fs) =
    let rest = modify_schema kind c fs in
    if same t kind then record { field_name = name; converter = c } ∷ rest else rest

module _ (to_string : Value → Bytes) where
  unfoldable pub string_entries : Fields → Entries
  string_entries no_field = []
  string_entries (field k v fs) = (k, to_string v) ∷ string_entries fs

  unfoldable pub to_map : Converter
  unfolding string_entries
  to_map (map_of fs) = text_map (string_entries fs)
  to_map v = v

unfoldable pub to_slice : Converter
to_slice (text s) = texts (s ∷ [])
to_slice v = v

unfoldable pub to_bool : Converter
to_bool (text s) = truth (same s (codes "true"))
to_bool v = v

-- The mapper with the converters that it has collected.
pub record TypeConverter : Type 0 where
  pub converter : Converter
  pub field_type : Bytes
  pub mappers : List FieldConverter

-- NewTypeConverter
unfoldable pub new_type_converter : Bytes → Converter → TypeConverter
new_type_converter field_type converter = record {
  converter = converter;
  field_type = field_type;
  mappers = [];
}

-- ModifySchema on the mapper: the converters of a schema come behind those it has.
unfoldable pub learn_schema : TypeConverter → List SchemaField → TypeConverter
unfolding modify_schema
learn_schema t fields = record t {
  mappers = t.mappers ++ modify_schema t.field_type t.converter fields;
}

-- NewToMap, NewToSlice and NewToBool
unfoldable pub new_to_map : (Value → Bytes) → TypeConverter
unfolding new_type_converter to_map
new_to_map to_string = new_type_converter (codes "map[string]") (to_map to_string)

unfoldable pub new_to_slice : TypeConverter
unfolding new_type_converter to_slice
new_to_slice = new_type_converter (codes "array[string]") to_slice

unfoldable pub new_to_bool : TypeConverter
unfolding new_type_converter to_bool
new_to_bool = new_type_converter (codes "boolean") to_bool

-- A mapper of the schemas: one of these converters, or FuzzyNames.
pub data Mapper : Type 0 where
  converting : TypeConverter → Mapper
  fuzzy_names : Mapper

-- DefaultMappers of the schemas of pkg/config/read.go
unfoldable pub default_mappers : (Value → Bytes) → List Mapper
unfolding new_to_map new_to_slice new_to_bool
default_mappers to_string =
    converting (new_to_map to_string)
    ∷ converting new_to_slice
    ∷ converting new_to_bool
    ∷ fuzzy_names
    ∷ []
