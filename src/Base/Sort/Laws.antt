-- ===== src/Base/Sort/Laws.antt =====
-- Sorting gives an ordered list, and the same one for every order of what is sorted.
use mathlib.Core.Path.{◌≡◌, refl, ap₂, ◌∙◌}
use mathlib.Core.Logic.{◌⊎◌, inl, inr, ∥∥₁_elim}
use mathlib.Core.Bool.{true}
use mathlib.Core.List.{List, [], ◌∷◌, Perm, Permᴰ}
use native.Mathlib.Omega.{arith}
use edgi_os.Base.Text.{Bytes}
use edgi_os.Base.Sort.{text_le, insert_text, sort_strings}

pub text_le_total : (s t : Bytes) → (text_le s t ≡ true) ⊎ (text_le t s ≡ true)
unfolding text_le
text_le_total [] t = inl refl
text_le_total (a ∷ s) [] = inr refl
text_le_total (a ∷ s) (b ∷ t) = ground (arith, text_le_total s t)

pub text_le_trans : (s t u : Bytes) → text_le s t ≡ true → text_le t u ≡ true → text_le s u ≡ true
unfolding text_le
text_le_trans [] t u h k = refl
text_le_trans (a ∷ s) [] u h k = cc
text_le_trans (a ∷ s) (b ∷ t) [] h k = cc
text_le_trans (a ∷ s) (b ∷ t) (c ∷ u) h k = ground (arith, text_le_trans s t u)

pub text_le_antisymm : (s t : Bytes) → text_le s t ≡ true → text_le t s ≡ true → s ≡ t
unfolding text_le
text_le_antisymm [] [] h k = refl
text_le_antisymm [] (b ∷ t) h k = cc
text_le_antisymm (a ∷ s) [] h k = cc
text_le_antisymm (a ∷ s) (b ∷ t) h k = ground (arith, text_le_antisymm s t)

-- Inserting two texts in either order gives one list.
pub insert_text_comm :
    (s t : Bytes) (us : List Bytes)
    → insert_text s (insert_text t us) ≡ insert_text t (insert_text s us)
unfolding insert_text
insert_text_comm s t [] = ground (arith, text_le_total s t, text_le_antisymm s t)
insert_text_comm s t (u ∷ us) = ground (
  arith,
  insert_text_comm s t us,
  text_le_total s t,
  text_le_antisymm s t,
  text_le_trans s t u,
  text_le_trans t s u,
)

-- Each text is at most the next.
abbrev pub IsSorted : List Bytes → Type 0
IsSorted [] = Unit
IsSorted (s ∷ []) = Unit
IsSorted (s ∷ t ∷ ts) = (text_le s t ≡ true) × IsSorted (t ∷ ts)

insert_text-IsSorted : (s : Bytes) (ts : List Bytes) → IsSorted ts → IsSorted (insert_text s ts)
unfolding insert_text
insert_text-IsSorted s [] h = tt
insert_text-IsSorted s (t ∷ []) h = ground (arith, text_le_total s t)
insert_text-IsSorted s (t ∷ u ∷ ts) h =
    ground (arith, text_le_total s t, insert_text-IsSorted s (u ∷ ts))

pub sort_strings-IsSorted : (ss : List Bytes) → IsSorted (sort_strings ss)
unfolding sort_strings
sort_strings-IsSorted [] = tt
sort_strings-IsSorted (s ∷ ss) = insert_text-IsSorted s (sort_strings ss) (sort_strings-IsSorted ss)

sort_strings-permᴰ : {xs ys : List Bytes} → Permᴰ xs ys → sort_strings xs ≡ sort_strings ys
unfolding sort_strings
sort_strings-permᴰ Permᴰ.nil = refl
sort_strings-permᴰ (Permᴰ.cons {l₁ = xs} e p) = ap₂ insert_text e (sort_strings-permᴰ p)
sort_strings-permᴰ (Permᴰ.swap {a} {b} {l = xs} e f) =
    rw (← e, ← f) (insert_text_comm a b (sort_strings xs))
sort_strings-permᴰ (Permᴰ.trans p q) = sort_strings-permᴰ p ∙ sort_strings-permᴰ q

texts_set : IsSet (List Bytes)
texts_set = hlevel

-- Two orders of the same texts are sorted alike.
pub sort_strings-perm : {xs ys : List Bytes} → Perm xs ys → sort_strings xs ≡ sort_strings ys
sort_strings-perm p = ∥∥₁_elim p (texts_set _ _) sort_strings-permᴰ
