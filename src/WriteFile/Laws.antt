-- ===== src/WriteFile/Laws.antt =====
-- What writing a file of the configuration may leave behind.
use Prim.Native.Nat.{bit_and}
use edgi_os.Base.{
  Bytes, codes, ℕ, ◌<◌, List, [], ◌∷◌, Option, some, All, ◌≡◌, ◌≢◌, ◌∙◌, refl, sym, arith,
}
use mathlib.Core.Path.{subst}
use edgi_os.Os.World.{Result, ok, err, Node, file, Files, Outcome, World, pure, ◌>>=◌, continue}
use edgi_os.Os.Files.{close, chmod, syscall_mode, follow, update}
use edgi_os.Os.Tree.{rename}
use edgi_os.Os.Files
use edgi_os.Os.Process.{run}
use edgi_os.Config.Types.{File}
use edgi_os.WriteFile.{set_owner, fill_file, place_file, finish_file}

-- The commands that are run change no file's content, as `chown` does not.
abbrev pub IsHarmless : World → Type 0
IsHarmless w = All (λ (o : Outcome). (fs : Files) → o.effect fs ≡ fs) w.outcomes

run-files :
    (program stdin : Bytes) (args env : List Bytes) (w : World) (os : List Outcome)
    → w.outcomes ≡ os
    → All (λ (o : Outcome). (fs : Files) → o.effect fs ≡ fs) os
    → (run program args stdin env w).1.files ≡ w.files
unfolding run
run-files program stdin args env w [] e h = rw e
run-files program stdin args env w (o ∷ os) e (h, hs) = rw e (h w.files)

set_owner-files :
    (owner tmp : Bytes) (w : World) → IsHarmless w → (set_owner owner tmp w).1.files ≡ w.files
unfolding set_owner pure
set_owner-files [] tmp w h = refl
set_owner-files (c ∷ s) tmp w h =
    run-files (codes "chown") [] ((c ∷ s) ∷ tmp ∷ []) [] w w.outcomes refl h

-- The path holds the whole content with the permissions, or what it held.
abbrev pub Replaced : Bytes → Bytes → ℕ → Option Node → Result Bytes → World → Type 0
Replaced p s perm old (ok q) w = (w.files p ≡ some (file perm s)) × (q ≡ p)
Replaced p s perm old (err e) w = w.files p ≡ old

place_from :
    (tmp p s : Bytes) (perm : ℕ) (r : Result Bytes) (w : World)
    → w.files tmp ≡ some (file perm s)
    → let (r', w') = continue r (λ _. rename tmp p >>= λ _. pure p) w in
      Replaced p s perm (w.files p) r' w'
unfolding rename ◌>>=◌
place_from tmp p s perm (ok _) w made = ground arith
place_from tmp p s perm (err e) w made = refl

place_file-Replaced :
    (owner tmp p s : Bytes) (perm : ℕ) (w : World)
    → IsHarmless w
    → w.files tmp ≡ some (file perm s)
    → let (r', w') = place_file owner p tmp w in Replaced p s perm (w.files p) r' w'
unfolding place_file ◌>>=◌
place_file-Replaced owner tmp p s perm w h made =
    let kept : (set_owner owner tmp w).1.files ≡ w.files = set_owner-files owner tmp w h in
    subst
      (λ (fs : Files).
        Replaced p s perm (fs p) (place_file owner p tmp w).0 (place_file owner p tmp w).1)
      kept
      (place_from tmp p s perm (set_owner owner tmp w).0 (set_owner owner tmp w).1
        (subst (λ (fs : Files). fs tmp ≡ some (file perm s)) (sym kept) made))

-- The temporary file once it is filled; the path and the commands to come are as before.
abbrev Filled : Bytes → Bytes → Bytes → ℕ → World → Result (Unit {0}) → World → Type 0
Filled tmp p s perm w r w' =
    (r ≡ ok tt → w'.files tmp ≡ some (file perm s))
    × (w'.files p ≡ w.files p)
    × (w'.outcomes ≡ w.outcomes)

fill_file-Filled :
    (tmp p s : Bytes) (perm m : ℕ) (w : World)
    → p ≢ tmp
    → w.files tmp ≡ some (file m [])
    → let (r, w') = fill_file s perm tmp w in Filled tmp p s (syscall_mode perm) w r w'
unfolding fill_file Files.write_file close chmod follow ◌>>=◌
fill_file-Filled tmp p s perm m w n made = (λ e. ground arith, ground arith, ground arith)

finish_from :
    (owner tmp p s : Bytes) (perm : ℕ) (old : Option Node) (r : Result (Unit {0})) (w w' : World)
    → IsHarmless w
    → w.files p ≡ old
    → Filled tmp p s perm w r w'
    → let (r', w'') = continue r (λ _. place_file owner p tmp) w' in Replaced p s perm old r' w''
finish_from owner tmp p s perm old (ok tt) w w' h e (filled, kept, commands) =
    subst
      (λ (o : Option Node).
        Replaced p s perm o (place_file owner p tmp w').0 (place_file owner p tmp w').1)
      (kept ∙ e)
      (place_file-Replaced owner tmp p s perm w'
        (subst (All (λ (o : Outcome). (fs : Files) → o.effect fs ≡ fs)) (sym commands) h)
        (filled refl))
finish_from owner tmp p s perm old (err x) w w' h e (filled, kept, commands) = kept ∙ e

finish_file-mode :
    (f : File) (p tmp : Bytes) (perm m : ℕ) (w : World)
    → IsHarmless w
    → p ≢ tmp
    → w.files tmp ≡ some (file m [])
    → let (r, w') = finish_file f p perm tmp w in
      Replaced p f.content (syscall_mode perm) (w.files p) r w'
unfolding finish_file ◌>>=◌
finish_file-mode f p tmp perm m w h n made =
    finish_from f.owner tmp p f.content (syscall_mode perm) (w.files p)
      (fill_file f.content perm tmp w).0 w (fill_file f.content perm tmp w).1 h refl
      (fill_file-Filled tmp p f.content perm m w n made)

syscall_mode-small : (perm : ℕ) → perm < 0x100000 → syscall_mode perm ≡ bit_and perm 0o777
unfolding syscall_mode
syscall_mode-small perm h = ground arith

-- From an empty temporary file at another path, and when the commands that are run change no
-- content: success means that the path holds the whole content with the nine low bits of the
-- permissions, for permissions below 0x100000, which have none of Go's own flags (so 4755 gives
-- 755), and failure that it holds what it held.
pub finish_file-Replaced :
    (f : File) (p tmp : Bytes) (perm m : ℕ) (w : World)
    → perm < 0x100000
    → IsHarmless w
    → p ≢ tmp
    → w.files tmp ≡ some (file m [])
    → let (r, w') = finish_file f p perm tmp w in
      Replaced p f.content (bit_and perm 0o777) (w.files p) r w'
finish_file-Replaced f p tmp perm m w small h n made =
    rw (syscall_mode-small perm small) at (finish_file-mode f p tmp perm m w h n made)
