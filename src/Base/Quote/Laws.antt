-- ===== src/Base/Quote/Laws.antt =====
-- A quoted text is read back.
use Prim.Native.Nat.{ℕ, ◌/◌, ◌%◌, ◌<◌, ◌≤◌}
use mathlib.Core.Path.{◌≡◌, refl, ap, ◌∙◌}
use mathlib.Core.Logic.{◌≢◌, inl, inr}
use mathlib.Core.Option.{none, some}
use mathlib.Core.List.{[], ◌∷◌, ◌++◌}
use native.Mathlib.Omega.{arith}
use edgi_os.Base.Text.{Bytes, codes}
use edgi_os.Base.Tests.{Option-cases, Bool-cases, ◌==◌, leb, ltb}
use mathlib.Core.Bool.{true, false, ◌||◌, ◌&&◌}
use edgi_os.Base.Lists.{All}
use edgi_os.Base.Quote.{
  quote_byte, quote_body, quote, plain, push, unquote_body, unquote, split_end, hex_value,
  hex_digit, control_letter, quote_control, simple_escape, backslash,
}

quote_test : quote (codes "a\"b\n\\") ≡ codes "\"a\\\"b\\n\\\\\""
unfolding quote
quote_test = refl

unquote_test :
    (unquote (codes "\"a\\tb\"") ≡ some (codes "a\tb")) × (unquote (codes "plain") ≡ none)
unfolding unquote
unquote_test = (refl, refl)

abbrev pub IsAscii : ℕ → Type 0
IsAscii c = c < 128

hex_value-hex_digit : (n : ℕ) → n < 16 → hex_value (hex_digit n) ≡ some n
hex_value-hex_digit n h = ground arith

hex_escape :
    (c : ℕ) (s : Bytes)
    → c < 256
    → unquote_body 34 plain (backslash ∷ b'x' ∷ hex_digit (c / 16) ∷ hex_digit (c % 16) ∷ s)
      ≡ push c (unquote_body 34 plain s)
unfolding unquote_body
hex_escape c s h =
    rw (hex_value-hex_digit (c / 16) (omega arith), hex_value-hex_digit (c % 16) (omega arith))
      (ap (λ (b : ℕ). push b (unquote_body 34 plain s)) (omega arith))

letter_escape :
    (c l : ℕ) → control_letter c ≡ some l → (simple_escape 34 l ≡ some c) × (b'x' ≢ l) × (b'a' ≤ l)
unfolding control_letter simple_escape
letter_escape c l h = ground arith

letter_body :
    (c l : ℕ) (s : Bytes)
    → (simple_escape 34 l ≡ some c) × (b'x' ≢ l) × (b'a' ≤ l)
    → unquote_body 34 plain (backslash ∷ l ∷ s) ≡ push c (unquote_body 34 plain s)
unfolding unquote_body
letter_body c l s (e, x, a) = ground arith

quote_control-body :
    (c : ℕ) (s : Bytes)
    → c < 256
    → unquote_body 34 plain (quote_control c ++ s) ≡ push c (unquote_body 34 plain s)
unfolding quote_control
quote_control-body c s h = elim (Option-cases (control_letter c)) [
  | inl e ↦ rw (e, quote_control) (hex_escape c s h)
  | inr (l, e) ↦ rw (e, quote_control) (letter_body c l s (letter_escape c l e))
]

self_escape :
    (c : ℕ) (s : Bytes)
    → (c == 34 || c == backslash) ≡ true
    → unquote_body 34 plain (backslash ∷ c ∷ s) ≡ push c (unquote_body 34 plain s)
unfolding unquote_body simple_escape
self_escape c s h = elim (Bool-cases (c == 34)) [
  | inl e ↦ let e' : c ≡ 34 = ground arith in rw e'
  | inr n ↦ let e' : c ≡ backslash = ground arith in rw e'
]

printable_body :
    (c : ℕ) (s : Bytes)
    → (c == 34 || c == backslash) ≡ false
    → 32 ≤ c
    → unquote_body 34 plain (c ∷ s) ≡ push c (unquote_body 34 plain s)
unfolding unquote_body
printable_body c s h k = ground arith

unquote_body-quote_byte :
    (c : ℕ) (s : Bytes)
    → c < 128
    → unquote_body 34 plain (quote_byte c ++ s) ≡ push c (unquote_body 34 plain s)
unfolding quote_byte
unquote_body-quote_byte c s h = elim (Bool-cases (c == 34 || c == backslash)) [
  | inl e ↦ rw (e, quote_byte) (self_escape c s e)
  | inr n ↦ elim (Bool-cases (leb 32 c && ltb c 127)) [
    | inl e ↦ rw (n, e, quote_byte) (printable_body c s n (ground arith))
    | inr m ↦ rw (n, m, quote_byte) (quote_control-body c s (omega arith))
  ]
]

unquote_body-quote_body :
    (s : Bytes) → All IsAscii s → unquote_body 34 plain (quote_body s) ≡ some s
unfolding quote_body
unquote_body-quote_body [] h = unfold unquote_body in refl
unquote_body-quote_body (c ∷ s) (h, hs) =
    unquote_body-quote_byte c (quote_body s) h ∙ rw (unquote_body-quote_body s hs)

split_end-append : (s : Bytes) (e : ℕ) → split_end (s ++ e ∷ []) ≡ some (s, e)
unfolding split_end
split_end-append [] e = refl
split_end-append (c ∷ []) e = refl
split_end-append (c ∷ d ∷ s) e = ground (arith, split_end-append (d ∷ s) e)

-- ASCII text is read back from its quotation.
pub unquote-quote : (s : Bytes) → All IsAscii s → unquote (quote s) ≡ some s
unfolding unquote quote
unquote-quote s h = rw (split_end-append (quote_body s) 34, unquote) (unquote_body-quote_body s h)
