-- ===== src/Ssh/Keys.antt =====
-- getKey and authorizeSSHKey of pkg/ssh/ssh.go.
pub mod Laws
use Prim.Native.Nat.{bit_and}
use edgi_os.Base.{
  Bytes, codes, ℕ, zero, suc, ◌/◌, Bool, true, false, ◌||◌, ◌&&◌, List, [], ◌∷◌, ◌++◌, Option, none,
  some, has_prefix, contains, is_empty, same, ltb, leb, ◌==◌, if◌then◌else◌,
}
use edgi_os.Base.Strings.{split_two, to_lower, Signed}
use edgi_os.Os.World.{
  Error, not_exist, message, errno, eof, wrapped, Result, ok, err, Node, file, Event, slept,
  Response, World, M, pure, raise, attempt, emit, ◌>>=◌, ◌>>◌,
}
use edgi_os.Os.Files.{stat, create, chmod, close, read_file}
use edgi_os.Os.Tree.{chown}
use edgi_os.Os.Process.{http_get}
use edgi_os.Util.Atomic.{write_file_atomic}
use edgi_os.Util.Calls.{read_body, node_perm}

abbrev pub is_letter : ℕ → Bool
is_letter c = (leb b'a' c && leb c b'z') || (leb b'A' c && leb c b'Z')

abbrev pub is_scheme_byte : ℕ → Bool
is_scheme_byte c = (leb b'0' c && leb c b'9') || c == b'+' || c == b'-' || c == b'.'

abbrev pub push_scheme : ℕ → Option (Bytes × Bytes) → Option (Bytes × Bytes)
push_scheme c none = none
push_scheme c (some (s, rest)) = some (c ∷ s, rest)

-- The part of net/url's Parse that finds the scheme; the flag says that a byte came before.
-- `none` means that there is no scheme, or that there is no name before the colon.
unfoldable pub get_scheme : Bool → Bytes → Option (Bytes × Bytes)
get_scheme started [] = none
get_scheme started (c ∷ s) =
    let rest = push_scheme c (get_scheme true s) in
    if is_letter c || (started && is_scheme_byte c)
    then rest
    else if started && c == b':'
    then some ([], s)
    else none

abbrev pub is_control : Bytes → Bool
is_control [] = false
is_control (c ∷ s) = ltb c 0x20 || c == 0x7f || is_control s

pub record Url : Type 0 where
  pub scheme : Bytes
  pub opaque : Bytes

-- What follows the scheme is opaque unless it begins with a slash; a fragment and a query are cut.
abbrev pub opaque_part : Bytes → Bytes
opaque_part [] = []
opaque_part (c ∷ s) = if c == b'/' then [] else (split_two (c ∷ s) b'?').0

abbrev pub url_from : Option (Bytes × Bytes) → Option Url
url_from none = none
url_from (some (scheme, rest)) =
    some (record { scheme = to_lower scheme; opaque = opaque_part rest })

-- url.Parse, as far as getKey looks: `none` is an error or a URL with no scheme.
unfoldable pub parse_url : Bytes → Option Url
unfolding get_scheme
parse_url key = if is_control key then none else url_from (get_scheme false (split_two key b'#').0)

unfoldable pub provider_url : Url → Bytes → Bytes
provider_url url key =
    if same url.scheme (codes "github")
    then codes "https://github.com/" ++ url.opaque ++ codes ".keys"
    else if same url.scheme (codes "gitlab")
    then codes "https://gitlab.com/" ++ url.opaque ++ codes ".keys"
    else key

abbrev pub is_unsupported : Error → Bool
is_unsupported (message s) = contains s (codes "unsupported protocol scheme")
is_unsupported (wrapped s e) = contains s (codes "unsupported protocol scheme")
is_unsupported e = false

unfoldable pub sleep : M (Unit {0})
sleep w = (ok tt, emit slept w)

-- Up to ten requests with a pause behind each that failed; the last error stands when they are used up.
unfoldable pub get_retry : ℕ → Bytes → Error → M Response
unfolding sleep
get_retry zero url last = raise last
get_retry (suc n) url last = do
  r ← attempt (http_get url)
  let again = λ (e : Error). do sleep; get_retry n url e
  elim r [ ok resp ↦ pure resp | err e ↦ if is_unsupported e then raise e else again e ]

abbrev pub fetch_attempts : ℕ
fetch_attempts = 10

unfoldable pub fetch_key : Bytes → M Bytes
unfolding get_retry
fetch_key url = do
  resp ← get_retry fetch_attempts url eof
  if ltb 2 (resp.status / 100) then raise (message (codes "bad status")) else read_body resp

unfoldable pub get_key : Bytes → Bool → M Bytes
unfolding fetch_key provider_url parse_url
get_key key with_net = elim (parse_url key) [
  | none ↦ pure key
  | some url ↦ if with_net then fetch_key (provider_url url key) else pure []
]

-- The content with the key behind it, unless the key occurs in it.
unfoldable pub add_key : Bytes → Bytes → Bytes
add_key bytes key = if contains bytes key then bytes else (bytes ++ key) ++ 10 ∷ []

abbrev pub stat_or_create : Bytes → Result Node → M Node
stat_or_create path (ok info) = pure info
stat_or_create path (err not_exist) = do create path; chmod path 0o600; close path; stat path
stat_or_create path (err e) = raise e

-- The file is replaced with its permissions kept, and given to the user.
unfoldable pub rewrite_keys : Bytes → Bytes → Signed → Signed → Node → M (Unit {0})
unfolding add_key
rewrite_keys key path uid gid info = do
  bytes ← read_file path
  write_file_atomic path (add_key bytes key) (node_perm info)
  chown path uid gid

-- What follows the key that was looked up.
unfoldable pub append_key : Bytes → Bytes → Signed → Signed → M (Unit {0})
unfolding rewrite_keys
append_key key path uid gid = do
  found ← attempt (stat path)
  info ← stat_or_create path found
  rewrite_keys key path uid gid info

unfoldable pub authorize_ssh_key : Bytes → Bytes → Signed → Signed → Bool → M (Unit {0})
unfolding get_key append_key
authorize_ssh_key key path uid gid with_net = do
  k ← get_key key with_net
  if is_empty k then pure tt else append_key k path uid gid
