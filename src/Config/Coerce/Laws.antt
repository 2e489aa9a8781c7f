-- ===== src/Config/Coerce/Laws.antt =====
-- Which values are converted.
use edgi_os.Base.{Bytes, List, [], ◌∷◌, Option, none, some, ◌≡◌, refl, arith, same, if◌then◌else◌}
use edgi_os.Config.Values.{Value, Fields, no_field, field, get, put}
use edgi_os.Config.Coerce.{
  Converter, SchemaField, convert_field, convert_fields, modify_schema, put_converted,
}

get-put :
    (k j : Bytes) (v : Value) (fs : Fields)
    → get k (put j v fs) ≡ (if same j k then some v else get k fs)
unfolding get put
get-put k j v no_field = ground arith
get-put k j v (field i u fs) = ground (arith, get-put k j v fs)

-- The type of a field of the schema.
unfoldable pub type_of : Bytes → List SchemaField → Option Bytes
type_of k [] = none
type_of k ((name, t) ∷ fs) = if same name k then some t else type_of k fs

-- The names of a schema differ.
abbrev pub IsSchema : List SchemaField → Type 0
IsSchema [] = Unit
IsSchema ((name, t) ∷ fs) = (type_of name fs ≡ none) × IsSchema fs

-- A value of a field of this type is converted, once.
unfoldable pub converted : Bytes → Converter → Option Bytes → Option Value → Option Value
converted kind c none v = v
converted kind c (some t) none = none
converted kind c (some t) (some v) = if same t kind then some (c v) else some v

get-put_converted :
    (k name : Bytes) (c : Converter) (o : Option Value) (fs : Fields)
    → get name fs ≡ o
    → get k (put_converted name c o fs)
      ≡ (if same name k then converted name c (some name) o else get k fs)
unfolding converted
get-put_converted k name c none fs e = ground arith
get-put_converted k name c (some v) fs e = ground (arith, get-put k name (c v) fs)

-- The converters of a schema: the value of a field with the wanted type is converted once, every other
-- value is as it was, and no field appears or disappears.
pub convert_fields-typed :
    (kind : Bytes) (c : Converter) (schema : List SchemaField) (fs : Fields) (k : Bytes)
    → IsSchema schema
    → get k (convert_fields (modify_schema kind c schema) fs)
      ≡ converted kind c (type_of k schema) (get k fs)
unfolding convert_fields convert_field modify_schema type_of converted
convert_fields-typed kind c [] fs k h = refl
convert_fields-typed kind c ((name, t) ∷ schema) fs k (h, hs) =
    let rest = convert_fields (modify_schema kind c schema) fs in
    ground (
      arith,
      convert_fields-typed kind c schema fs k hs,
      get-put_converted k name c (get name rest) rest refl,
    )
