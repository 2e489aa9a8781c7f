-- ===== src/Base/Text.antt =====
-- Go strings and byte slices: sequences of bytes, with equality and the prefix test of `strings`.
use Prim.Native.Nat.{ℕ}
use Prim.Native.Char.{code}
use Prim.Native.String.{String}
use mathlib.Core.Path.{◌≡◌, refl, ap₂, ap}
use mathlib.Core.Logic.{ite, dite}
use mathlib.Core.Bool.{Bool, true, false, ◌||◌}
use mathlib.Core.List.{List, [], ◌∷◌, ◌++◌, tail}
use native.Mathlib.Decide.{ℕ_discrete}
use native.Mathlib.Omega.{arith}
use edgi_os.Base.Tests.{◌==◌, if◌then◌else◌}

abbrev pub Bytes : Type 0
Bytes = List ℕ

-- The bytes of a literal; every literal of the program is ASCII.
abbrev pub codes : String → Bytes
codes String.[] = []
codes (String.◌∷◌ c s) = code c ∷ codes s

-- Shut in proofs, where a split on `same s t` yields the equation or its negation.
unfoldable pub bytes_discrete : Discrete Bytes
unfolding ℕ_discrete
bytes_discrete [] [] = yes refl
bytes_discrete [] (b ∷ t) = no (λ p. cc)
bytes_discrete (a ∷ s) [] = no (λ p. cc)
bytes_discrete (a ∷ s) (b ∷ t) =
    dite (ℕ_discrete a b)
      (λ p. dite (bytes_discrete s t) (λ q. yes (ap₂ ◌∷◌ p q)) (λ n. no (λ e. n (ap tail e))))
      (λ n. no (λ e. n (cc)))

-- `s == t`
abbrev pub same : Bytes → Bytes → Bool
same s t = ite (bytes_discrete s t) true false

pub same_refl : (s : Bytes) → same s s ≡ true
same_refl s = ground arith

-- `s == ""`
abbrev pub is_empty : Bytes → Bool
is_empty [] = true
is_empty (c ∷ s) = false

-- strings.HasPrefix
unfoldable pub has_prefix : Bytes → Bytes → Bool
has_prefix s [] = true
has_prefix [] (p ∷ ps) = false
has_prefix (c ∷ s) (p ∷ ps) = if c == p then has_prefix s ps else false

-- strings.Contains, bytes.Contains
unfoldable pub contains : Bytes → Bytes → Bool
unfolding has_prefix
contains [] p = has_prefix [] p
contains (c ∷ s) p = has_prefix (c ∷ s) p || contains s p

pub has_prefix-append : (p s : Bytes) → has_prefix (p ++ s) p ≡ true
unfolding has_prefix
has_prefix-append [] [] = refl
has_prefix-append [] (c ∷ s) = refl
has_prefix-append (c ∷ p) s = ground (arith, has_prefix-append p s)
