-- ===== src/Util/Password.antt =====
-- pkg/util/prompt.go: MaskPassword over the bytes that the terminal delivers.
pub mod Laws
use mathlib.Core.List.{reverse}
use edgi_os.Base.{
  Bytes, codes, ℕ, zero, suc, ◌+◌, Bool, true, false, ◌||◌, List, [], ◌∷◌, ◌++◌, ◌==◌,
  if◌then◌else◌, same,
}
use edgi_os.Os.World.{Error, message, eof, wrapped, Result, ok, err}

abbrev pub max_bytes : ℕ
max_bytes = 512

-- What is returned: the bytes (they are returned beside an error too), the error, what was echoed
-- and what the terminal still holds.
pub record Masked : Type 0 where
  pub password : Bytes
  pub failure : Result (Unit {0})
  pub echo : Bytes
  pub unread : Bytes

abbrev pub is_erase : ℕ → Bool
is_erase v = v == 127 || v == 8

abbrev pub is_enter : ℕ → Bool
is_enter v = v == 13 || v == 10

-- p[:len(p)-1], nothing of an empty password
unfoldable pub drop_last : Bytes → Bytes
drop_last [] = []
drop_last (c ∷ []) = []
drop_last (c ∷ d ∷ s) = c ∷ drop_last (d ∷ s)

abbrev pub erase_echo : Bytes → Bytes
erase_echo [] = []
erase_echo (c ∷ s) = 8 ∷ b' ' ∷ 8 ∷ []

abbrev pub too_long : Error
too_long = message (codes "maximum password length is 512 bytes")

abbrev pub interrupted : Error
interrupted = message (codes "interrupted")

-- The loop with the rounds left; a round reads one byte.
unfoldable pub mask_loop : ℕ → Bytes → Bytes → Bytes → Masked
unfolding drop_last
mask_loop zero input p echo = record {
  password = p;
  failure = err too_long;
  echo = echo;
  unread = input;
}
mask_loop (suc n) [] p echo = record { password = p; failure = err eof; echo = echo; unread = [] }
mask_loop (suc n) (v ∷ input) p echo =
    let erased = mask_loop n input (drop_last p) (echo ++ erase_echo p) in
    let ignored = mask_loop n input p echo in
    let added = mask_loop n input (p ++ v ∷ []) (echo ++ b'*' ∷ []) in
    if is_erase v
    then erased
    else if is_enter v
    then record { password = p; failure = ok tt; echo = echo; unread = input }
    else if v == 3
    then record { password = p; failure = err interrupted; echo = echo; unread = input }
    else if v == 0
    then ignored
    else added

-- `for i = 0; i <= maxBytes; i++`
unfoldable pub mask_password : Bytes → Masked
unfolding mask_loop
mask_password input = mask_loop (suc max_bytes) input [] []

-- The password, whether it was typed alike twice, and the error.
pub data Prompted : Type 0 where
  typed : Bytes → Bool → Prompted
  failed : Error → Prompted

abbrev pub confirmed : Bytes → Masked → Prompted × Bytes
confirmed p m = elim m.failure [
  | ok _ ↦ (typed m.password (same p m.password), m.unread)
  | err e ↦ (failed (wrapped (codes "failed to confirm password") e), m.unread)
]

abbrev pub entered : Masked → (Bytes → Masked) → Prompted × Bytes
entered m again = elim m.failure [
  | ok _ ↦ confirmed m.password (again m.unread)
  | err e ↦ (failed (wrapped (codes "failed to set password") e), m.unread)
]

unfoldable pub prompt_password : Bytes → Prompted × Bytes
unfolding mask_password
prompt_password input = entered (mask_password input) mask_password
