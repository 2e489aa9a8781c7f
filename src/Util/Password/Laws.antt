-- ===== src/Util/Password/Laws.antt =====
-- What the password prompt makes of the keys.
use edgi_os.Base.{
  Bytes, ℕ, zero, suc, ◌≤◌, ◌<◌, [], ◌∷◌, ◌++◌, ◌==◌, if◌then◌else◌, ◌≡◌, ◌≢◌, refl, arith, length,
  All, same, take, ◌-◌, ◌||◌, ◌⊎◌, inl, inr,
}
use edgi_os.Os.World.{Result, ok, err}
use edgi_os.Util.Password.{
  max_bytes, Masked, drop_last, mask_loop, mask_password, erase_echo, too_long, prompt_password,
  typed,
}

-- The line without its last byte.
abbrev pub shortened : Bytes → Bytes
shortened p = take (length p - 1) p

drop_last-shortened : (p : Bytes) → drop_last p ≡ shortened p
unfolding drop_last
drop_last-shortened [] = refl
drop_last-shortened (c ∷ []) = refl
drop_last-shortened (c ∷ d ∷ s) = ground (arith, drop_last-shortened (d ∷ s))

-- The line after the keys were typed at it: delete (127) and backspace (8) take the last byte, a NUL
-- does nothing, any other byte is added.
pub edit : Bytes → Bytes → Bytes
edit p [] = p
edit p (v ∷ keys) =
    edit (if v == 127 || v == 8 then shortened p else if v == 0 then p else p ++ v ∷ []) keys

abbrev pub IsKey : ℕ → Type 0
IsKey v = (v ≢ 13) × (v ≢ 10) × (v ≢ 3)

abbrev pub line : Masked → Bytes × Result (Unit {0}) × Bytes
line m = (m.password, m.failure, m.unread)

mask_loop-enter :
    (n : ℕ) (keys p echo rest : Bytes) (e : ℕ)
    → All IsKey keys
    → length keys < n
    → (e ≡ 13) ⊎ (e ≡ 10)
    → line (mask_loop n (keys ++ e ∷ rest) p echo) ≡ (edit p keys, ok tt, rest)
unfolding mask_loop edit
mask_loop-enter zero keys p echo rest e k h enter = absurd (omega arith)
mask_loop-enter (suc n) [] p echo rest e k h (inl enter) = ground arith
mask_loop-enter (suc n) [] p echo rest e k h (inr enter) = ground arith
mask_loop-enter (suc n) (v ∷ keys) p echo rest e (k, ks) h enter = ground (
  arith,
  drop_last-shortened p,
  mask_loop-enter n keys (shortened p) (echo ++ erase_echo p) rest e ks,
  mask_loop-enter n keys p echo rest e ks,
  mask_loop-enter n keys (p ++ v ∷ []) (echo ++ b'*' ∷ []) rest e ks,
)

-- Up to 512 keys and the enter key, 13 or 10, give the edited line; what follows is left to the next prompt.
pub mask_password-enter :
    (keys rest : Bytes) (e : ℕ)
    → All IsKey keys
    → length keys ≤ max_bytes
    → (e ≡ 13) ⊎ (e ≡ 10)
    → line (mask_password (keys ++ e ∷ rest)) ≡ (edit [] keys, ok tt, rest)
unfolding mask_password
mask_password-enter keys rest e k h enter =
    mask_loop-enter (suc max_bytes) keys [] [] rest e k (omega arith) enter

mask_loop-too_long :
    (n : ℕ) (keys p echo rest : Bytes)
    → All IsKey keys
    → length keys ≡ n
    → line (mask_loop n (keys ++ rest) p echo) ≡ (edit p keys, err too_long, rest)
unfolding mask_loop edit
mask_loop-too_long zero [] p echo rest k h = refl
mask_loop-too_long zero (v ∷ keys) p echo rest k h = absurd (omega arith)
mask_loop-too_long (suc n) [] p echo rest k h = absurd (omega arith)
mask_loop-too_long (suc n) (v ∷ keys) p echo rest (k, ks) h = ground (
  arith,
  drop_last-shortened p,
  mask_loop-too_long n keys (shortened p) (echo ++ erase_echo p) rest ks,
  mask_loop-too_long n keys p echo rest ks,
  mask_loop-too_long n keys (p ++ v ∷ []) (echo ++ b'*' ∷ []) rest ks,
)

-- The limit counts keys and not bytes: 513 keys without an enter key are refused as too long,
-- however short the line is that they leave.
pub mask_password-too_long :
    (keys rest : Bytes)
    → All IsKey keys
    → length keys ≡ suc max_bytes
    → line (mask_password (keys ++ rest)) ≡ (edit [] keys, err too_long, rest)
unfolding mask_password
mask_password-too_long keys rest k h = mask_loop-too_long (suc max_bytes) keys [] [] rest k h

-- Both entries of up to 512 keys: the prompt answers with the second line, and with whether the
-- two lines are equal.
pub prompt_password-typed :
    (first second rest : Bytes)
    → All IsKey first
    → All IsKey second
    → length first ≤ max_bytes
    → length second ≤ max_bytes
    → prompt_password (first ++ 13 ∷ (second ++ 13 ∷ rest))
      ≡ (typed (edit [] second) (same (edit [] first) (edit [] second)), rest)
unfolding prompt_password
prompt_password-typed first second rest k l h m = ground (
  arith,
  mask_password-enter first (second ++ 13 ∷ rest) 13 k h (inl refl),
  mask_password-enter second rest 13 l m (inl refl),
)
