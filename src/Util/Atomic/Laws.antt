-- ===== src/Util/Atomic/Laws.antt =====
-- Replacing a file atomically.
use edgi_os.Base.{
  Bytes, ℕ, ◌+◌, ◌≤◌, ◌++◌, [], ◌∷◌, List, Option, none, some, ◌∙◌, ◌≡◌, ◌≢◌, refl, ap, arith,
  length, length-append,
}
use mathlib.Core.Path.{subst}
use edgi_os.Base.{codes, suc, ◌||◌, is_empty, Bool-cases, Option-cases, inl, inr}
use edgi_os.Base.Paths.{split_path, slash}
use edgi_os.Base.Paths.Laws.{split_path-append}
use edgi_os.Os.World.{
  Result, ok, err, World, Files, Fault, fine, fail, short, under_fault, head_fault, charge,
  continue, Node, file, defer, ◌>>=◌,
}
use edgi_os.Os.Files.{update, write_open, close, chmod, follow}
use edgi_os.Os.Tree.{
  join_path, fresh_suffix, is_taken, fresh_between, make_between, around_star, cut_at, cut_pattern,
  temp_file_in, rename, remove,
}
use edgi_os.Util.Atomic.{replace_by, write_file_atomic}

-- What a replacement of the file at `p` may leave, by its result.
abbrev pub Replaced : Bytes → Bytes → ℕ → Option Node → Result (Unit {0}) → World → Type 0
Replaced p s perm old (ok _) w = w.files p ≡ some (file perm s)
Replaced p s perm old (err e) w = w.files p ≡ old

replace_by-Replaced :
    (p s t : Bytes) (perm m : ℕ) (w : World)
    → w.files t ≡ some (file m [])
    → p ≢ t
    → let (r, w') = replace_by p s perm t w in Replaced p s perm (w.files p) r w'
unfolding replace_by write_open close chmod rename follow ◌>>=◌
replace_by-Replaced p s t perm m w h n = ground arith

replace_by-other :
    (p s t q : Bytes) (perm m : ℕ) (w : World)
    → w.files t ≡ some (file m [])
    → q ≢ p
    → q ≢ t
    → (replace_by p s perm t w).1.files q ≡ w.files q
unfolding replace_by write_open close chmod rename follow ◌>>=◌
replace_by-other p s t q perm m w h n o = ground arith

-- Removing one path leaves the others.
remove-other : (t q : Bytes) (w : World) → q ≢ t → (remove t w).1.files q ≡ w.files q
unfolding remove
remove-other t q w n = ground arith

Replaced-remove :
    (p s t : Bytes) (perm : ℕ) (old : Option Node) (r : Result (Unit {0})) (w : World)
    → p ≢ t
    → Replaced p s perm old r w
    → Replaced p s perm old r (remove t w).1
Replaced-remove p s t perm old (ok _) w n h = remove-other t p w n ∙ h
Replaced-remove p s t perm old (err e) w n h = remove-other t p w n ∙ h

-- The name that is drawn was free.
pub fresh_suffix-free :
    (files : Files) (prefix r : Bytes) (rs left : List Bytes)
    → fresh_suffix files prefix rs ≡ some (r, left)
    → files (prefix ++ r) ≡ none
unfolding fresh_suffix
fresh_suffix-free files prefix r [] left h = cc
fresh_suffix-free files prefix r (x ∷ xs) left h =
    ground (arith, fresh_suffix-free files prefix r xs left)

length-join_path : (d name : Bytes) → length d + length name ≤ length (join_path d name)
unfolding join_path
length-join_path [] name = omega (arith, length-append {0} (codes "/tmp/") name)
length-join_path (c ∷ d) name =
    ground (arith, length-append (c ∷ d) name, length-append (c ∷ d) (slash ∷ name))

-- What stands around the drawn text has all bytes of the pattern but a `*`.
length-around_star :
    (s a b : Bytes) → around_star s ≡ some (a, b) → length s ≡ suc (length a + length b)
unfolding around_star
length-around_star [] a b e = cc
length-around_star (c ∷ s) a b e = elim (Option-cases (around_star s)) [
  | inl n ↦ ground (arith, n)
  | inr ((a', b'), y) ↦
      let shorter : length s ≡ suc (length a' + length b') = length-around_star s a' b' y in
      let cut : some (c ∷ a', b') ≡ some (a, b) = rw y at e in ground arith
]

length-cut_at :
    (s : Bytes) (o : Option (Bytes × Bytes))
    → around_star s ≡ o
    → length s ≤ suc (length (cut_at s o).0 + length (cut_at s o).1)
length-cut_at s none e = omega arith
length-cut_at s (some (a, b)) e = omega (arith, length-around_star s a b e)

-- What stands before and behind the drawn text of the name beside a file.
abbrev pub before_drawn : Bytes → Bytes
before_drawn p = join_path (split_path p).0 (cut_pattern (b'.' ∷ (split_path p).1)).0

abbrev pub behind_drawn : Bytes → Bytes
behind_drawn p = (cut_pattern (b'.' ∷ (split_path p).1)).1

abbrev pub temp_name : Bytes → Bytes → Bytes
temp_name p r = before_drawn p ++ (r ++ behind_drawn p)

-- The temporary name is longer than the target's, so it is another name.
pub temp_name-ne : (p r : Bytes) → r ≢ [] → p ≢ temp_name p r
temp_name-ne p [] n e = absurd (n refl)
temp_name-ne p (c ∷ r) n e = omega (
  arith,
  ap length e,
  length-append {0} (before_drawn p) ((c ∷ r) ++ behind_drawn p),
  length-append {0} (c ∷ r) (behind_drawn p),
  length-join_path (split_path p).0 (cut_pattern (b'.' ∷ (split_path p).1)).0,
  length-cut_at (b'.' ∷ (split_path p).1) _ refl,
  length-append {0} (split_path p).0 (split_path p).1,
  ap length (split_path-append p),
)

-- The text that is drawn is not empty, and its name was free.
pub fresh_between-free :
    (files : Files) (prefix suffix r : Bytes) (rs left : List Bytes)
    → fresh_between files prefix suffix rs ≡ some (r, left)
    → (r ≢ []) × (files (prefix ++ (r ++ suffix)) ≡ none)
unfolding fresh_between
fresh_between-free files prefix suffix r [] left h = cc
fresh_between-free files prefix suffix r (x ∷ xs) left h =
    elim (Bool-cases (is_empty x || is_taken (files (prefix ++ (x ++ suffix))))) [
      | inl y ↦ fresh_between-free files prefix suffix r xs left (rw y at h)
      | inr n ↦
          let here : some (x, xs) ≡ some (r, left) = rw n at h in
          let drawn : x ≡ r = ground arith in
          subst (λ (z : Bytes). (z ≢ []) × (files (prefix ++ (z ++ suffix)) ≡ none)) drawn
            (λ e. ground arith, ground arith)
    ]

-- What ioutil.TempFile returns for the file at the path, and the files behind it.
abbrev Drawn : Bytes → World → Result Bytes → World → Type 0
Drawn p w (err e) w' = w'.files ≡ w.files
Drawn p w (ok t) w' =
    (r : Bytes) × (r ≢ [])
    × (t ≡ temp_name p r)
    × (w.files t ≡ none)
    × (w'.files ≡ update w.files t (some (file (w.mask 0o600) [])))

make_between-Drawn :
    (p : Bytes) (w : World) (o : Option (Bytes × List Bytes))
    → fresh_between w.files (before_drawn p) (behind_drawn p) w.random ≡ o
    → let (r, w') = make_between (before_drawn p) (behind_drawn p) o w in Drawn p w r w'
make_between-Drawn p w none e = refl
make_between-Drawn p w (some (r, rs)) e =
    let (filled, free) =
      fresh_between-free w.files (before_drawn p) (behind_drawn p) r w.random rs e in
    (r, filled, refl, free, refl)

under_fault-Drawn :
    (p : Bytes) (w : World) (f : Fault)
    → let (r, w') =
        under_fault f
          (λ w.
            make_between
              (before_drawn p)
              (behind_drawn p)
              (fresh_between w.files (before_drawn p) (behind_drawn p) w.random)
              w)
          w in
      Drawn p w r w'
under_fault-Drawn p w fine = make_between-Drawn p w _ refl
under_fault-Drawn p w (fail e) = refl
under_fault-Drawn p w (short n e) = refl

temp_file_in-Drawn :
    (p : Bytes) (w : World)
    → let (r, w') = temp_file_in (split_path p).0 (b'.' ∷ (split_path p).1) w in Drawn p w r w'
unfolding temp_file_in
temp_file_in-Drawn p w = under_fault-Drawn p (charge w) (head_fault w.faults)

-- Together with that, the other paths that were in use are as they were.
abbrev IsAtomic : Bytes → Bytes → ℕ → World → Result (Unit {0}) → World → Type 0
IsAtomic p s perm w r w' =
    Replaced p s perm (w.files p) r w'
    × ((q : Bytes) → q ≢ p → w.files q ≢ none → w'.files q ≡ w.files q)

after_temp-IsAtomic :
    (p s : Bytes) (perm : ℕ) (w : World) (r : Result Bytes) (w' : World)
    → Drawn p w r w'
    → let (r'', w'') = continue r (λ t. defer (remove t) (replace_by p s perm t)) w' in
      IsAtomic p s perm w r'' w''
unfolding defer
after_temp-IsAtomic p s perm w (err e) w' h = (ground arith, λ q n m. ground arith)
after_temp-IsAtomic p s perm w (ok t) w' (r, filled, named, free, made) =
    let distinct : p ≢ t = λ e. temp_name-ne p r filled (e ∙ named) in
    let old : w'.files p ≡ w.files p = rw made (ground arith) in
    let empty : w'.files t ≡ some (file (w.mask 0o600) []) = rw made (ground arith) in
    let kept : (q : Bytes)
        → q ≢ p
        → q ≢ t
        → (remove t (replace_by p s perm t w').1).1.files q ≡ w.files q =
      λ q n o.
        remove-other t q _ o
        ∙ replace_by-other p s t q perm (w.mask 0o600) w' empty n o
        ∙ rw made (ground arith) in
    (
      Replaced-remove p s t perm (w.files p) _ _ distinct
          (rw old at (replace_by-Replaced p s t perm (w.mask 0o600) w' empty distinct)),
      λ q n used. kept q n (λ e. used (rw e free)),
    )

write_file_atomic-IsAtomic :
    (p s : Bytes) (perm : ℕ) (w : World)
    → let (r, w') = write_file_atomic p s perm w in IsAtomic p s perm w r w'
unfolding write_file_atomic ◌>>=◌
write_file_atomic-IsAtomic p s perm w =
    after_temp-IsAtomic p s perm w (temp_file_in (split_path p).0 (b'.' ∷ (split_path p).1) w).0
      (temp_file_in (split_path p).0 (b'.' ∷ (split_path p).1) w).1 (temp_file_in-Drawn p w)

-- Under any faults of the calls: a successful replacement has put the whole new content with the
-- wanted permissions at the path, and a failed one has left what stood there.
pub write_file_atomic-Replaced :
    (p s : Bytes) (perm : ℕ) (w : World)
    → let (r, w') = write_file_atomic p s perm w in Replaced p s perm (w.files p) r w'
write_file_atomic-Replaced p s perm w = (write_file_atomic-IsAtomic p s perm w).0

-- Under any faults, every other path that was in use holds what it held, whether or not the
-- replacement succeeds.
pub write_file_atomic-others :
    (p s q : Bytes) (perm : ℕ) (w : World)
    → q ≢ p
    → w.files q ≢ none
    → (write_file_atomic p s perm w).1.files q ≡ w.files q
write_file_atomic-others p s q perm w n used = (write_file_atomic-IsAtomic p s perm w).1 q n used
