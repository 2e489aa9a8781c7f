-- ===== src/Config/Values.antt =====
-- The values of `map[string]interface{}` that the configuration goes through before it is decoded.
-- A map is its entries in the order in which `range` visits them.
use edgi_os.Base.{Bytes, Bool, List, Option, none, some, same, if◌then◌else◌}
use edgi_os.Config.Types.{Entries}

mutual
  pub data Value : Type 0 where
    text : Bytes → Value
    truth : Bool → Value
    -- []string and map[string]string
    texts : List Bytes → Value
    text_map : Entries → Value
    list : Values → Value
    map_of : Fields → Value
    -- any other scalar, by what `%v` prints for it
    scalar : Bytes → Value

  pub data Values : Type 0 where
    no_value : Values
    value : Value → Values → Values

  pub data Fields : Type 0 where
    no_field : Fields
    field : Bytes → Value → Fields → Fields

-- v, ok := data[k]
unfoldable pub get : Bytes → Fields → Option Value
get k no_field = none
get k (field j v fs) = if same j k then some v else get k fs

-- data[k] = v
unfoldable pub put : Bytes → Value → Fields → Fields
put k v no_field = field k v no_field
put k v (field j w fs) = if same j k then field k v fs else field j w (put k v fs)

-- delete(data, k)
unfoldable pub delete : Bytes → Fields → Fields
delete k no_field = no_field
delete k (field j w fs) = let rest = delete k fs in if same j k then rest else field j w rest

-- The keys of a map, in the order in which they are visited.
unfoldable pub keys : Fields → List Bytes
keys no_field = List.[]
keys (field j w fs) = List.◌∷◌ j (keys fs)
