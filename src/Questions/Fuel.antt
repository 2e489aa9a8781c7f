-- ===== src/Questions/Fuel.antt =====
-- The loops of the questions end: each round takes a line, so that the lines bound the rounds.
use edgi_os.Base.{
  Bytes, codes, ℕ, zero, suc, ◌<◌, ◌≤◌, ◌≡◌, refl, List, [], ◌∷◌, Option, none, some, Bool, arith,
  inl, inr, is_empty, length, Bool-cases, take,
}
use edgi_os.Os.World.{eof, World, M, pure, emit, ◌>>=◌, ◌>>◌}
use edgi_os.Os.Process.{read_line, print}
use edgi_os.Os.Lines.{
  Gone, Gone-shorter, Takes, Alike, Takes-pure, Takes-raise, Takes-bind, Takes-less, Alike-none,
  Alike-refl, Alike-bind,
}
use edgi_os.Questions.{shown}
use edgi_os.Questions.{
  or_default, prompt_optional, prompt_from, prompt, bool_from, prompt_bool, yes_no, rounds,
}

-- The state after a question with one line of answer.
abbrev left : List Bytes → World → List Bytes
left ls w = take (length ls) (w.unbuffered ls)

abbrev answered : Bytes → List Bytes → World → World
answered text ls w = emit (shown w.terminal text) (record w { input = left ls w })

length-left : (n : ℕ) (ls : List Bytes) → length (take n ls) ≤ n
length-left zero ls = omega arith
length-left (suc n) [] = omega arith
length-left (suc n) (l ∷ ls) = omega (arith, length-left n ls)

-- With as many rounds as lines, a question takes a line wherever it returns, and more rounds change nothing.
prompt_from-takes :
    (n : ℕ) (text def : Bytes) (ls : List Bytes) (w : World)
    → w.input ≡ ls
    → Gone 1 w (prompt_from n text def w)
unfolding prompt_from prompt_optional read_line ◌>>=◌
prompt_from-takes zero text def ls w h = tt
prompt_from-takes (suc n) text def [] w h = rw h tt
prompt_from-takes (suc n) text def (l ∷ ls) w h = elim (Bool-cases (is_empty (or_default l def))) [
  | inl y ↦ rw h (
      rw y (
        Gone-shorter 1 (record w { input = l ∷ ls }) (answered text ls w)
          (prompt_from n text def (answered text ls w)).0 _
          (omega (arith, length-left (length ls) (w.unbuffered ls)))
          (prompt_from-takes n text def (left ls w) (answered text ls w) refl)))
  | inr y ↦ rw h (rw y (omega (arith, length-left (length ls) (w.unbuffered ls))))
]

pub prompt-Takes : (text def : Bytes) → Takes 1 (prompt text def)
unfolding prompt ◌>>=◌
prompt-Takes text def = record { at = λ w. prompt_from-takes (rounds w) text def w.input w refl }

print-Takes : (s : Bytes) → Takes 0 (print s)
print-Takes s = record { at = λ w. omega arith }

abbrev complain : Bytes
complain = codes "Enter y or n\n"

-- What follows the answer to a question of yes or no.
after_yn-Takes :
    (o : Option Bool) (again : M Bool)
    → Takes 0 again
    → Takes 0 (elim o as (λ _. M Bool) [ none ↦ print complain >> again | some b ↦ pure b ])
after_yn-Takes none again t =
    Takes-bind 0 0 (print complain) (λ _. again) (print-Takes complain) (λ _. t)
after_yn-Takes (some b) again t = Takes-pure b

after_yn-Alike :
    (bound : ℕ) (o : Option Bool) (again again' : M Bool)
    → Alike bound again again'
    → Alike bound
        (elim o as (λ _. M Bool) [ none ↦ print complain >> again | some b ↦ pure b ])
        (elim o as (λ _. M Bool) [ none ↦ print complain >> again' | some b ↦ pure b ])
after_yn-Alike bound none again again' t =
    Alike-bind 0 bound bound (print complain) (λ _. again) (λ _. again') (omega arith)
      (print-Takes complain) (λ _. t)
after_yn-Alike bound (some b) again again' t = Alike-refl bound (pure b)

bool_from-Takes : (n : ℕ) (msg def : Bytes) → Takes 1 (bool_from n msg def)
unfolding bool_from
bool_from-Takes zero msg def = Takes-raise 1 eof
bool_from-Takes (suc n) msg def = Takes-bind 1 0 (prompt msg def) _ (prompt-Takes msg def) (λ yn.
    after_yn-Takes (yes_no yn) (bool_from n msg def)
      (Takes-less 0 1 _ (omega arith) (bool_from-Takes n msg def)))

pub prompt_bool-Takes : (text : Bytes) (def : Bool) → Takes 1 (prompt_bool text def)
unfolding prompt_bool ◌>>=◌
prompt_bool-Takes text def = record { at = λ w. (bool_from-Takes (rounds w) _ _).at w }

pub bool_from-Alike :
    (bound n m : ℕ) (msg def : Bytes)
    → bound ≤ n
    → bound ≤ m
    → Alike bound (bool_from n msg def) (bool_from m msg def)
unfolding bool_from
bool_from-Alike zero n m msg def b c = Alike-none _ _
bool_from-Alike (suc k) zero m msg def b c = absurd (omega (arith, b))
bool_from-Alike (suc k) (suc n) zero msg def b c = absurd (omega (arith, c))
bool_from-Alike (suc k) (suc n) (suc m) msg def b c =
    Alike-bind 1 k (suc k) (prompt msg def) _ _ (omega arith) (prompt-Takes msg def) (λ yn.
      after_yn-Alike k (yes_no yn) _ _
        (bool_from-Alike k n m msg def (omega (arith, b)) (omega (arith, c))))

-- A question of yes or no asks again at most as often as there are lines of input: with any number of rounds
-- that is larger than that of the lines, PromptBool comes to the same result and the same state.
pub bool_from-enough :
    (n m : ℕ) (msg def : Bytes) (w : World)
    → length w.input < n
    → length w.input < m
    → bool_from n msg def w ≡ bool_from m msg def w
bool_from-enough n m msg def w b c =
    (bool_from-Alike (suc (length w.input)) n m msg def (omega (arith, b)) (omega (arith, c))).at w
      (omega arith)
