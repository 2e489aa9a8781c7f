-- ===== src/Config/Fuzzy.antt =====
-- pkg/config/rename.go. `convert.ToYAMLKey` of the mapper library is a parameter.
pub mod Laws
use edgi_os.Base.{
  Bytes, codes, ℕ, ◌&&◌, ◌-◌, List, [], ◌∷◌, Option, none, some, same, ltb, length, take,
  if◌then◌else◌,
}
use edgi_os.Base.Strings.{to_lower, has_suffix}
use edgi_os.Config.Values.{Value, Fields, no_field, field, put}

-- The names of FuzzyNames: what each spelling stands for. A later entry for a spelling replaces an
-- earlier one, so it stands in front.
abbrev pub Names : Type 0
Names = List (Bytes × Bytes)

unfoldable pub find_name : Bytes → Names → Option Bytes
find_name k [] = none
find_name k ((j, n) ∷ ns) = if same j k then some n else find_name k ns

abbrev pub put_alias : Bytes → Value → Option Bytes → Fields → Fields
put_alias k v none fields = fields
put_alias k v (some n) fields = if same n k then fields else put n v fields

-- The loop of ToInternal over the entries that the map had at its start.
unfoldable pub add_aliases : Names → Fields → Fields → Fields
unfolding find_name put
add_aliases names no_field fields = fields
add_aliases names (field k v fs) fields =
    add_aliases names fs (put_alias k v (find_name k names) fields)

-- FuzzyNames.ToInternal, which never fails
unfoldable pub to_internal : Names → Fields → Fields
unfolding add_aliases
to_internal names fields = add_aliases names fields fields

module _ (to_yaml_key : Bytes → Bytes) where
  unfoldable pub add_name : Bytes → Bytes → Names → Names
  unfolding to_lower
  add_name name to_name names =
      (to_lower (to_yaml_key name), to_name)
      ∷ (to_yaml_key name, to_name)
      ∷ (to_lower name, to_name)
      ∷ names

  abbrev pub drop_suffix : Bytes → ℕ → Bytes
  drop_suffix name n = take (length name - n) name

  -- What ModifySchema adds for a field: its name without `s`, without `es`, and as it is.
  unfoldable pub add_field : Bytes → Names → Names
  unfolding add_name has_suffix
  add_field name names =
      let without_s =
        if has_suffix name (codes "s") && ltb 1 (length name)
        then add_name (drop_suffix name 1) name names
        else names in
      let without_es =
        if has_suffix name (codes "es") && ltb 2 (length name)
        then add_name (drop_suffix name 2) name without_s
        else without_s in
      add_name name name without_es

  unfoldable pub add_fields : List Bytes → Names → Names
  unfolding add_field
  add_fields [] names = names
  add_fields (f ∷ fs) names = add_fields fs (add_field f names)

  -- FuzzyNames.ModifySchema on the fields of the schema, in the order in which they are visited.
  unfoldable pub modify_schema : List Bytes → Names
  unfolding add_fields
  modify_schema fields =
      (codes "password", codes "passphrase")
      ∷ (codes "pass", codes "passphrase")
      ∷ add_fields fields []
