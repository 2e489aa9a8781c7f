-- ===== src/Ssh/Users.antt =====
-- findUserHomeDir of pkg/ssh/ssh.go.
pub mod Laws
use edgi_os.Base.{
  Bytes, codes, ℕ, Bool, true, false, List, [], ◌∷◌, Option, none, some, has_prefix, get_elem?,
  length, ltb, if◌then◌else◌,
}
use edgi_os.Base.Strings.{split, atoi, Signed, plus}
use edgi_os.Os.World.{Error, message, Result, ok, err}

pub record User : Type 0 where
  pub uid : Signed
  pub gid : Signed
  pub home : Bytes

-- The named results before any line is read.
abbrev pub no_user : User
no_user = record { uid = plus 0; gid = plus 0; home = [] }

abbrev pub bad_number : Error
bad_number = message (codes "strconv.Atoi: parsing failed")

abbrev pub read_user : Option Signed → Option Signed → Bytes → Result User
read_user (some u) (some g) home = ok (record { uid = u; gid = g; home = home })
read_user _ _ home = err bad_number

-- The fields of a line of /etc/passwd; `none` leaves the loop.
unfoldable pub user_line : List Bytes → Option (Result User)
user_line (name ∷ pass ∷ uid ∷ gid ∷ gecos ∷ home ∷ more) =
    some (read_user (atoi uid) (atoi gid) home)
user_line _ = none

-- The loop; a later line that fits replaces what an earlier one gave.
unfoldable pub find_user : List Bytes → Bytes → User → Result User
unfolding user_line
find_user [] username found = ok found
find_user (line ∷ lines) username found =
    let skip = find_user lines username found in
    let next = λ (u : User). find_user lines username u in
    if has_prefix line username
    then elim (user_line (split line b':')) [
      | none ↦ ok found
      | some (err e) ↦ err e
      | some (ok u) ↦ next u
    ]
    else skip

unfoldable pub find_user_home_dir : Bytes → Bytes → Result User
unfolding find_user
find_user_home_dir bytes username = find_user (split bytes 10) username no_user
