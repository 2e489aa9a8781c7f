-- ===== src/Ssh/Users/Laws.antt =====
-- Which line of the password file is used.
use edgi_os.Base.{Bytes, true, false, List, [], ◌∷◌, ◌++◌, some, All, ◌≡◌, refl, ◌∙◌, has_prefix}
use edgi_os.Base.Strings.{split, atoi, Signed, plus}
use edgi_os.Os.World.{ok}
use edgi_os.Ssh.Users.{User, no_user, find_user, find_user_home_dir}

-- The lines begin otherwise.
abbrev pub Others : Bytes → List Bytes → Type 0
Others username = All (λ l. has_prefix l username ≡ false)

find_user-Others :
    (username : Bytes) (ls : List Bytes) (u : User)
    → Others username ls
    → find_user ls username u ≡ ok u
unfolding find_user
find_user-Others username [] u h = refl
find_user-Others username (l ∷ ls) u (h, hs) = rw h (find_user-Others username ls u hs)

find_user-append :
    (username : Bytes) (ls ms : List Bytes) (u : User)
    → Others username ls
    → find_user (ls ++ ms) username u ≡ find_user ms username u
unfolding find_user
find_user-append username [] ms u h = refl
find_user-append username (l ∷ ls) ms u (h, hs) = rw h (find_user-append username ls ms u hs)

-- If one line alone begins with the name, and it has the fields of a user with numbers that can be
-- read, that user is found.
pub find_user_home_dir-only :
    (bytes username line name pass uid gid gecos home : Bytes) (before after more : List Bytes)
    (u g : Signed)
    → split bytes 10 ≡ before ++ line ∷ after
    → Others username before
    → has_prefix line username ≡ true
    → split line b':' ≡ name ∷ pass ∷ uid ∷ gid ∷ gecos ∷ home ∷ more
    → atoi uid ≡ some u
    → atoi gid ≡ some g
    → Others username after
    → find_user_home_dir bytes username ≡ ok (record { uid = u; gid = g; home = home })
unfolding find_user_home_dir
find_user_home_dir-only bytes username line name pass uid gid gecos home before after more u g e b p
      f hu hg a =
    rw e (
      find_user-append username before (line ∷ after) no_user b
      ∙ rw (p, f, hu, hg, find_user) (find_user-Others username after _ a))

-- If no line begins with the name there is no error: the answer is the user 0 of group 0 with an
-- empty home directory.
pub find_user_home_dir-missing :
    (bytes username : Bytes)
    → Others username (split bytes 10)
    → find_user_home_dir bytes username ≡ ok (record { uid = plus 0; gid = plus 0; home = [] })
unfolding find_user_home_dir
find_user_home_dir-missing bytes username h = find_user-Others username (split bytes 10) no_user h
