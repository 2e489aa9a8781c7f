-- ===== src/Config/Cmdline/Laws.antt =====
-- What the command line is cut into.
use edgi_os.Base.{
  Bytes, codes, ℕ, zero, suc, ◌≤◌, ◌<◌, ◌==◌, false, List, [], ◌∷◌, ◌++◌, append_assoc, Option,
  none, some, ◌≡◌, ◌≢◌, refl, sym, ap, ◌∙◌, length, length-append, arith, inl, inr, Bool-cases,
  if◌then◌else◌,
}
use edgi_os.Config.Cmdline.{
  items, is_blank, to_quote, closed, match_quoted, behind, match_value, or_else, match_assigned,
  match_word, match_or_word, match_item, find_items,
}

-- The bytes that are not blank.
abbrev pub visible : Bytes → Bytes
visible [] = []
visible (c ∷ s) = let rest = visible s in if is_blank c then rest else c ∷ rest

abbrev pub all_visible : List Bytes → Bytes
all_visible [] = []
all_visible (i ∷ is) = visible i ++ all_visible is

visible-append : (s t : Bytes) → visible (s ++ t) ≡ visible s ++ visible t
visible-append [] t = refl
visible-append (c ∷ s) t = ground (arith, visible-append s t)

-- A match and what follows it are the text, and the match takes a byte.
abbrev Whole : Bytes → Bytes × Bytes → Type 0
Whole s (m, rest) = (m ++ rest ≡ s) × (m ≢ [])

abbrev Matches : Bytes → Option (Bytes × Bytes) → Type 0
Matches s none = Unit
Matches s (some m) = Whole s m

to_quote-append : (s : Bytes) → let (body, rest) = to_quote s in body ++ rest ≡ s
unfolding to_quote
to_quote-append [] = refl
to_quote-append (c ∷ s) = ground (arith, to_quote-append s)

closed-Matches : (p : Bytes × Bytes) (s : Bytes) → p.0 ++ p.1 ≡ s → Matches (b'"' ∷ s) (closed p)
closed-Matches ([], rest) s e = tt
closed-Matches (c ∷ body, []) s e = tt
closed-Matches (c ∷ body, q ∷ rest) s e =
    (ap (λ (t : Bytes). b'"' ∷ t) (append_assoc (c ∷ body) (q ∷ []) rest ∙ e), λ n. cc)

behind-Matches :
    (c : ℕ) (s : Bytes) (o : Option (Bytes × Bytes))
    → Matches s o
    → Matches (c ∷ s) (behind (c ∷ []) o)
behind-Matches c s none h = tt
behind-Matches c s (some (m, rest)) (h, n) = (ap (λ (t : Bytes). c ∷ t) h, λ x. cc)

or_else-Matches :
    (s : Bytes) (o p : Option (Bytes × Bytes)) → Matches s o → Matches s p → Matches s (or_else o p)
or_else-Matches s none p h g = g
or_else-Matches s (some m) p h g = h

match_quoted-Matches : (s : Bytes) → Matches s (match_quoted s)
unfolding match_quoted
match_quoted-Matches [] = tt
match_quoted-Matches (c ∷ s) = elim (Bool-cases (c == b'"')) [
  | inl y ↦
      let e : c ≡ b'"' = ground arith in
      rw y (rw e (closed-Matches (to_quote s) s (to_quote-append s)))
  | inr y ↦ rw y tt
]

match_value-Matches : (s : Bytes) → Matches s (match_value s)
match_value-Matches [] = tt
match_value-Matches (c ∷ s) = elim (Bool-cases (c == b'=')) [
  | inl y ↦ rw y (behind-Matches c s (match_quoted s) (match_quoted-Matches s))
  | inr y ↦ rw y tt
]

match_assigned-Matches : (s : Bytes) → Matches s (match_assigned s)
unfolding match_assigned
match_assigned-Matches [] = tt
match_assigned-Matches (c ∷ s) = elim (Bool-cases (is_blank c)) [
  | inl y ↦ rw y tt
  | inr y ↦ rw y (
      behind-Matches c s (or_else (match_assigned s) (match_value s)) (
        or_else-Matches s (match_assigned s) (match_value s) (match_assigned-Matches s)
          (match_value-Matches s)))
]

match_word-append : (s : Bytes) → let (w, rest) = match_word s in w ++ rest ≡ s
unfolding match_word
match_word-append [] = refl
match_word-append (c ∷ s) = ground (arith, match_word-append s)

match_word-Whole : (c : ℕ) (s : Bytes) → is_blank c ≡ false → Whole (c ∷ s) (match_word (c ∷ s))
unfolding match_word
match_word-Whole c s n = rw n (ap (λ (t : Bytes). c ∷ t) (match_word-append s), λ x. cc)

match_or_word-Whole :
    (o : Option (Bytes × Bytes)) (s : Bytes)
    → Matches s o
    → Whole s (match_word s)
    → Whole s (match_or_word o s)
match_or_word-Whole none s h g = g
match_or_word-Whole (some m) s h g = h

match_item-Whole : (c : ℕ) (s : Bytes) → is_blank c ≡ false → Whole (c ∷ s) (match_item (c ∷ s))
unfolding match_item
match_item-Whole c s n =
    match_or_word-Whole _ (c ∷ s)
      (or_else-Matches (c ∷ s) (match_quoted (c ∷ s)) (match_assigned (c ∷ s))
        (match_quoted-Matches (c ∷ s)) (match_assigned-Matches (c ∷ s)))
      (match_word-Whole c s n)

-- What follows a match is shorter.
Whole-shorter : (s m rest : Bytes) → Whole s (m, rest) → length rest < length s
Whole-shorter s [] rest (h, n) = absurd (n refl)
Whole-shorter s (c ∷ m) rest (h, n) = omega (arith, ap length h, length-append (c ∷ m) rest)

next_item :
    (n c : ℕ) (s : Bytes)
    → is_blank c ≡ false
    → find_items (suc n) (c ∷ s) ≡ (match_item (c ∷ s)).0 ∷ find_items n (match_item (c ∷ s)).1
unfolding find_items
next_item n c s y = rw y refl

find_items-visible : (n : ℕ) (s : Bytes) → length s ≤ n → all_visible (find_items n s) ≡ visible s
unfolding find_items
find_items-visible zero [] b = refl
find_items-visible zero (c ∷ s) b = absurd (omega (arith, b))
find_items-visible (suc n) [] b = refl
find_items-visible (suc n) (c ∷ s) b = elim (Bool-cases (is_blank c)) [
  | inl y ↦ rw y (find_items-visible n s (omega (arith, b)))
  | inr y ↦
      let (m, rest) = match_item (c ∷ s) in
      let whole = match_item-Whole c s y in
      let later =
        find_items-visible n rest (omega (arith, b, Whole-shorter (c ∷ s) m rest whole)) in
      ap all_visible (next_item n c s y)
      ∙ ap (λ (t : Bytes). visible m ++ t) later
      ∙ sym (visible-append m rest)
      ∙ ap visible whole.0
]

-- The items of a command line hold, in order, every byte of it that is not blank, and no other visible one: whatever
-- quotes and equals signs it has, nothing is lost or doubled.
pub items-visible : (s : Bytes) → all_visible (items s) ≡ visible s
unfolding items
items-visible s = find_items-visible (length s) s (omega arith)

items_test :
    items (codes "quiet edgi.mode=live \"a b\" k.v=\"x y\"z w=\"\"")
    ≡ codes "quiet"
      ∷ codes "edgi.mode=live"
      ∷ codes "\"a b\""
      ∷ codes "k.v=\"x y\""
      ∷ codes "z"
      ∷ codes "w=\"\""
      ∷ []
unfolding items
items_test = refl
