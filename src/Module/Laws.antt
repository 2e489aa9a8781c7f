-- ===== src/Module/Laws.antt =====
-- Which modules are loaded.
use edgi_os.Base.{Bytes, ℕ, false, List, [], ◌∷◌, ◌≡◌, ◌≢◌, ◌⊎◌, inl, inr, refl, sym, arith}
use edgi_os.Base.Strings.{split, split_two}
use edgi_os.Base.Strings.Laws.{Lacks}
use edgi_os.Module.{loaded_names, is_loaded, load_one, load_params}

split_two-Lacks : (sep : ℕ) (s : Bytes) → Lacks sep (split_two s sep).0
unfolding split_two
split_two-Lacks sep [] = tt
split_two-Lacks sep (c ∷ s) = ground (arith, split_two-Lacks sep s)

-- The byte stands in the text.
abbrev pub Holds : ℕ → Bytes → Type 0
Holds b [] = ⊥
Holds b (c ∷ s) = (b ≡ c) ⊎ Holds b s

not-Lacks : (b : ℕ) (s : Bytes) → Holds b s → Lacks b s → ⊥
not-Lacks b [] h _ = elim h [ ]
not-Lacks b (c ∷ s) (inl e) (h, hs) = h (sym e)
not-Lacks b (c ∷ s) (inr k) (h, hs) = not-Lacks b s k hs

is_loaded-false :
    (m : Bytes) (ls : List Bytes) → Holds b' ' m → is_loaded m (loaded_names ls) ≡ false
unfolding is_loaded
is_loaded-false m [] h = refl
is_loaded-false m (l ∷ ls) h = ground (arith, is_loaded-false m ls h, ne)
  where
    ne : m ≢ (split_two l b' ').0
    ne e = not-Lacks b' ' m h (rw e (split_two-Lacks b' ' l))

-- A module that is given with parameters goes to modprobe whatever is loaded, since the names of
-- the loaded modules hold no space.
pub load_one-with_params :
    (m : Bytes) (ls : List Bytes)
    → Holds b' ' m
    → load_one (loaded_names ls) m ≡ load_params m (split m b' ')
unfolding load_one
load_one-with_params m ls h = rw (is_loaded-false m ls h)
