-- ===== src/Config/Cmdline.antt =====
-- readCmdline of pkg/config/read.go: the kernel's command line as a source of the configuration. The
-- regular expression is written out as the function that finds its leftmost match, its alternatives tried in order.
pub mod Laws
use edgi_os.Base.{
  Bytes, codes, ℕ, zero, suc, ◌==◌, Bool, true, false, ◌||◌, List, [], ◌∷◌, ◌++◌, Option, none,
  some, length, if◌then◌else◌,
}
use edgi_os.Base.Strings.{split, split_two, trim}
use edgi_os.Os.World.{not_exist, Result, ok, err, M, pure, raise, attempt, ◌>>=◌}
use edgi_os.Os.Files.{read_file}
use edgi_os.Config.Values.{
  Value, text, texts, truth, text_map, list, map_of, scalar, Fields, no_field,
}

-- `\s` of the regular expressions
unfoldable pub is_blank : ℕ → Bool
is_blank c = c == 32 || (c == 9 || (c == 10 || (c == 12 || c == 13)))

-- The text up to the next quote, and what begins with it.
unfoldable pub to_quote : Bytes → Bytes × Bytes
to_quote [] = ([], [])
to_quote (c ∷ s) =
    let (body, rest) = to_quote s in if c == b'"' then ([], c ∷ s) else (c ∷ body, rest)

abbrev pub closed : Bytes × Bytes → Option (Bytes × Bytes)
closed (c ∷ body, q ∷ rest) = some (b'"' ∷ ((c ∷ body) ++ q ∷ []), rest)
closed _ = none

-- `"[^"]+"`: the match and what follows it.
unfoldable pub match_quoted : Bytes → Option (Bytes × Bytes)
unfolding to_quote
match_quoted [] = none
match_quoted (c ∷ s) = if c == b'"' then closed (to_quote s) else none

abbrev pub behind : Bytes → Option (Bytes × Bytes) → Option (Bytes × Bytes)
behind prefix none = none
behind prefix (some (m, rest)) = some (prefix ++ m, rest)

-- `="[^"]+"` right here
abbrev pub match_value : Bytes → Option (Bytes × Bytes)
match_value [] = none
match_value (c ∷ s) = if c == b'=' then behind (c ∷ []) (match_quoted s) else none

abbrev pub or_else : Option (Bytes × Bytes) → Option (Bytes × Bytes) → Option (Bytes × Bytes)
or_else (some m) o = some m
or_else none o = o

-- `[^\s]+="[^"]+"`: the longest name that a quoted value follows.
unfoldable pub match_assigned : Bytes → Option (Bytes × Bytes)
unfolding match_quoted
match_assigned [] = none
match_assigned (c ∷ s) =
    let longer = match_assigned s in
    if is_blank c then none else behind (c ∷ []) (or_else longer (match_value s))

-- `[^\s]+`
unfoldable pub match_word : Bytes → Bytes × Bytes
unfolding is_blank
match_word [] = ([], [])
match_word (c ∷ s) =
    let (w, rest) = match_word s in if is_blank c then ([], c ∷ s) else (c ∷ w, rest)

abbrev pub match_or_word : Option (Bytes × Bytes) → Bytes → Bytes × Bytes
match_or_word (some m) s = m
match_or_word none s = match_word s

-- The match at a byte that is not blank.
unfoldable pub match_item : Bytes → Bytes × Bytes
unfolding match_quoted match_assigned match_word
match_item s = match_or_word (or_else (match_quoted s) (match_assigned s)) s

-- FindAllString; a round takes a byte at least.
unfoldable pub find_items : ℕ → Bytes → List Bytes
unfolding match_item
find_items zero s = []
find_items (suc n) [] = []
find_items (suc n) (c ∷ s) =
    let skipped = find_items n s in
    let after = find_items n (match_item (c ∷ s)).1 in
    if is_blank c then skipped else (match_item (c ∷ s)).0 ∷ after

unfoldable pub items : Bytes → List Bytes
unfolding find_items
items s = find_items (length s) s

-- GetValue and PutValue of the mapper library
module _ (get_value : Fields → List Bytes → Option Value)
    (put_value : Fields → Value → List Bytes → Fields) where
  abbrev pub add_value : Option Value → Fields → Bytes → List Bytes → Fields
  add_value none entries v keys = put_value entries (text v) keys
  add_value (some (text s)) entries v keys = put_value entries (texts (s ∷ v ∷ [])) keys
  add_value (some (texts ss)) entries v keys = put_value entries (texts (ss ++ v ∷ [])) keys
  add_value (some _) entries v keys = entries

  abbrev pub item_value : Option Bytes → Bytes
  item_value none = codes "true"
  item_value (some s) = trim s b'"'

  -- The body of the loop over the items.
  unfoldable pub add_item : Fields → Bytes → Fields
  add_item entries item =
      let (name, assigned) = split_two item b'=' in
      let keys = split (trim name b'"') b'.' in
      add_value (get_value entries keys) entries (item_value assigned) keys

  unfoldable pub add_items : List Bytes → Fields → Fields
  unfolding add_item
  add_items [] entries = entries
  add_items (item ∷ rest) entries = add_items rest (add_item entries item)

  abbrev pub cmdline_from : Result Bytes → M Fields
  cmdline_from (ok s) = pure (add_items (items s) no_field)
  cmdline_from (err not_exist) = pure no_field
  cmdline_from (err e) = raise e

  -- readCmdline
  unfoldable pub read_cmdline : M Fields
  unfolding items add_items
  read_cmdline = do s ← attempt (read_file (codes "/proc/cmdline")); cmdline_from s
