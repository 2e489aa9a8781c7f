-- ===== src/Config/Read.antt =====
-- merge, readersToObject and readFile of pkg/config/read.go. What they take from the mapper and yaml
-- libraries is given by parameters.
pub mod Laws
use edgi_os.Base.{Bytes, codes, List, [], ◌∷◌, ◌++◌, map, Option, none, some}
use edgi_os.Base.Paths.{path_join}
use edgi_os.Os.World.{Error, not_exist, Result, ok, err, M, pure, raise, lift, attempt, ◌>>=◌}
use edgi_os.Os.Files.{read_file}
use edgi_os.Config.Types.{CloudConfig}
use edgi_os.Config.Values.{Fields, no_field}

abbrev pub Reader : Type 0
Reader = M Fields

-- What the program takes from the libraries: the mapping into the schema's names, the merge of newer
-- data over older, the decoding into the configuration, and the reading of a YAML text.
pub record Library : Type 0 where
  pub to_internal : Fields → Result Fields
  pub update_merge : Fields → Fields → Fields
  pub to_object : Fields → Result CloudConfig
  pub unmarshal : Bytes → Result Fields

module _ (lib : Library) where
  -- The loop over the readers, from the data merged so far.
  unfoldable pub merge_from : List Reader → Fields → M Fields
  merge_from [] merged = pure merged
  merge_from (r ∷ readers) merged =
      let rest = λ (older newer : Fields). merge_from readers (lib.update_merge older newer) in
      do new_data ← r; mapped ← lift (lib.to_internal new_data); rest merged mapped

  unfoldable pub merge : List Reader → M Fields
  unfolding merge_from
  merge readers = merge_from readers no_field

  unfoldable pub readers_to_object : List Reader → M CloudConfig
  unfolding merge
  readers_to_object readers = do merged ← merge readers; lift (lib.to_object merged)

  abbrev pub file_from : Result Bytes → M Fields
  file_from (ok s) = lift (lib.unmarshal s)
  file_from (err not_exist) = pure no_field
  file_from (err e) = raise e

  -- readFile: an absent file adds nothing.
  unfoldable pub read_config_file : Bytes → M Fields
  read_config_file path = do s ← attempt (read_file path); file_from s

  -- readLocalConfigs, from what ioutil.ReadDir gave: the names in their order.
  abbrev pub local_readers : Bytes → Result (List Bytes) → List Reader
  local_readers dir (ok names) = map (λ n. read_config_file (path_join (dir ∷ n ∷ []))) names
  local_readers dir (err not_exist) = []
  local_readers dir (err e) = raise e ∷ []

  -- ReadConfig: the fixed readers, and behind them those of the directory config.d.
  unfoldable pub read_config : List Reader → Bytes → Result (List Bytes) → M CloudConfig
  unfolding readers_to_object
  read_config readers dir listing = readers_to_object (readers ++ local_readers dir listing)
