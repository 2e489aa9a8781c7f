-- ===== src/Component/Laws.antt =====
-- The link `current` while a version is copied.
use edgi_os.Base.{
  Bytes, ℕ, true, false, ◌++◌, Option, none, some, has_prefix, ◌≡◌, refl, ◌∙◌, sym, arith,
  bytes_discrete,
}
use edgi_os.Base.Paths.{base}
use edgi_os.Os.World.{
  Result, ok, err, Node, file, directory, link, World, M, pure, attempt, defer, ◌>>=◌, Fault, fine,
  fail, short, under_fault, head_fault, charge,
}
use edgi_os.Os.Tree.{symlink, temp_dir, remove, remove_all, rename, is_within, symlink_at}
use edgi_os.Os.Keeps.{Keeps, Ends, Ends-bind, Ends-defer, Ends-then, Keeps-attempt, Keeps-both}
use edgi_os.Os.Keeps.Links.{
  LinkAt, stat-Keeps, remove-Keeps, rename-Keeps, remove_all-Keeps, temp_dir-Keeps, chmod-Keeps,
  Ends-temp_dir,
}
use edgi_os.Os.Logged.{logged}
use edgi_os.Component.{
  Places, current_temp, aside, temp_place, switch_current, place_version, place_over, fill_version,
  copy_version,
}
use edgi_os.Component.Apart.{
  is_within-apart, is_within-path, has_prefix-ne, current-apart, current_temp-ne, logged-Keeps,
  Apart, chosen,
}

module _ (copy : Bytes → Bytes → M (Unit {0}))
    (mount : Bytes → Bytes → Bytes → Bytes → M (Unit {0}))
    (kept : (a b q : Bytes) (w : World)
      → is_within b q ≡ false
      → (copy a b w).1.files q ≡ w.files q)
    (p : Places) where
  module _ (q t : Bytes) (away : Apart p q) where
    copy-Keeps : (a b : Bytes) → is_within b q ≡ false → Keeps (LinkAt q t) (copy a b)
    copy-Keeps a b n = record { at = λ w h. kept a b q w n ∙ h }

    remove_target-Keeps : Keeps (LinkAt q t) (attempt (remove p.target))
    remove_target-Keeps = Keeps-attempt _ (remove-Keeps p.target (has_prefix-ne p.target q away.0))

    remove_previous-Keeps : Keeps (LinkAt q t) (logged (remove p.previous))
    remove_previous-Keeps =
        logged-Keeps _ (remove-Keeps p.previous (has_prefix-ne p.previous q away.1))

    copy_previous-Keeps : Keeps (LinkAt q t) (logged (copy p.current p.previous))
    copy_previous-Keeps = logged-Keeps _ (copy-Keeps _ _ (is_within-path p.previous q away.1))

    move_aside-Keeps : Keeps (LinkAt q t) (rename p.target (aside p))
    move_aside-Keeps =
        rename-Keeps _ _ (is_within-path p.target q away.0) (is_within-apart p.target _ q away.0)

    move_back-Keeps : Keeps (LinkAt q t) (rename (aside p) p.target)
    move_back-Keeps =
        rename-Keeps _ _ (is_within-apart p.target _ q away.0) (is_within-path p.target q away.0)

    module _ (r : Bytes) where
      fill-Keeps : Keeps (LinkAt q t) (copy p.source (temp_place p ++ r))
      fill-Keeps = copy-Keeps _ _ (is_within-apart (temp_place p) r q away.2)

      place-Keeps : Keeps (LinkAt q t) (rename (temp_place p ++ r) p.target)
      place-Keeps =
          rename-Keeps _ _ (is_within-apart (temp_place p) r q away.2)
            (is_within-path p.target q away.0)

      clear-Keeps : Keeps (LinkAt q t) (remove_all (temp_place p ++ r))
      clear-Keeps = remove_all-Keeps _ (is_within-apart (temp_place p) r q away.2)

  module _ (t b : Bytes) (away : Apart p (current_temp p)) where
    abbrev Before : World → Type 0
    Before w = LinkAt p.current t w × LinkAt (current_temp p) b w

    abbrev After {ℓ} : {A : Type ℓ} → Result A → World → Type 0
    After r w = LinkAt p.current (chosen t b r) w

    away_current : Apart p p.current
    away_current = (
      current-apart p.current _ p.target away.0,
      current-apart p.current _ p.previous away.1,
      current-apart p.current _ (temp_place p) away.2,
    )

    -- What leaves both links leaves what holds before the last step.
    both {ℓ} :
        {A : Type ℓ}
        → (m : M A) → ((q s : Bytes) → Apart p q → Keeps (LinkAt q s) m)
        → Keeps Before m
    both m f = Keeps-both m (f p.current t away_current) (f (current_temp p) b away)

    -- One more step that leaves both links.
    Ends-step {ℓ κ} :
        {A : Type ℓ}
        → {B : Type κ} → (m : M A) (f : A → M B)
        → ((q s : Bytes) → Apart p q → Keeps (LinkAt q s) m)
        → ((a : A) → Ends Before After (f a))
        → Ends Before After (m >>= f)
    Ends-step m f k = Ends-bind (λ e w h. h.0) m f (both m k)

    rename-After : Ends Before After (rename (current_temp p) p.current)
    unfolding rename bytes_discrete
    rename-After = record { at = λ w (h, g). ground arith }

    switch_current-After : Ends Before After (switch_current copy mount p)
    unfolding switch_current
    switch_current-After =
        Ends-step _ _ remove_previous-Keeps λ _. Ends-step _ _ copy_previous-Keeps λ _. rename-After

    place_version-After :
        (mode : ℕ) (r : Bytes)
        → Ends Before After (place_version copy mount p mode (temp_place p ++ r))
    unfolding place_version ◌>>=◌
    place_version-After mode r =
        Ends-step _ _ (λ q s o. place-Keeps q s o r)
          λ _.
            Ends-step _ _ (λ q s o. logged-Keeps _ (chmod-Keeps p.target mode))
              λ _.
                Ends-then After After (λ e w h. h) (λ _. pure true) (λ _. record { at = λ w h. h })
                  _ switch_current-After

    place_over-After :
        (mode : ℕ) (r : Bytes) (n : Result Node)
        → Ends Before After (place_over copy mount p mode (temp_place p ++ r) n)
    unfolding ◌>>=◌
    place_over-After mode r (ok (directory m)) = Ends-step _ _ move_aside-Keeps λ _.
        Ends-defer _ _ (λ _. move_back-Keeps p.current _ away_current) (place_version-After mode r)
    place_over-After mode r (ok (file m s)) =
        Ends-step _ _ remove_target-Keeps λ _. place_version-After mode r
    place_over-After mode r (ok (link s)) =
        Ends-step _ _ remove_target-Keeps λ _. place_version-After mode r
    place_over-After mode r (err e) = place_version-After mode r

    fill_version-After :
        (mode : ℕ) (r : Bytes)
        → Ends Before After (fill_version copy mount p mode (temp_place p ++ r))
    unfolding fill_version
    fill_version-After mode r =
        Ends-step _ _ (λ q s o. fill-Keeps q s o r)
          λ _.
            Ends-step _ _ (λ q s o. Keeps-attempt _ (stat-Keeps p.target))
              λ n. place_over-After mode r n

    fill-After :
        (mode : ℕ) (r : Bytes)
        → Ends Before After (
            defer
              (remove_all (temp_place p ++ r))
              (fill_version copy mount p mode (temp_place p ++ r)))
    fill-After mode r =
        Ends-defer _ _ (λ _. clear-Keeps p.current _ away_current r) (fill_version-After mode r)

    temp-After :
        (mode : ℕ)
        → Ends Before After (
            defer (remove (current_temp p)) (
              temp_dir (temp_place p) >>= λ temp.
              defer (remove_all temp) (fill_version copy mount p mode temp)))
    temp-After mode =
        Ends-defer _ _ (λ _. remove-Keeps (current_temp p) (current_temp-ne p))
          (Ends-temp_dir (λ e w h. h.0) (temp_place p) _
            (both _ λ q s _. temp_dir-Keeps (temp_place p)) (fill-After mode))

    -- What the first step comes to.
    abbrev Linked : Result (Unit {0}) → World → Type 0
    Linked (ok _) w = Before w
    Linked (err e) w = LinkAt p.current t w

    symlink_at-Linked :
        (o : Option Node) (w : World)
        → LinkAt p.current t w
        → let (r, w') = symlink_at o b (current_temp p) w in Linked r w'
    unfolding bytes_discrete
    symlink_at-Linked none w h = (ground (arith, current_temp-ne p), ground arith)
    symlink_at-Linked (some n) w h = h

    under_fault-Linked :
        (f : Fault) (w : World)
        → LinkAt p.current t w
        → let (r, w') =
            under_fault f (λ v. symlink_at (v.files (current_temp p)) b (current_temp p) v) w in
          Linked r w'
    under_fault-Linked fine w h = symlink_at-Linked (w.files (current_temp p)) w h
    under_fault-Linked (fail e) w h = h
    under_fault-Linked (short n e) w h = h

    symlink-Linked : Ends (LinkAt p.current t) Linked (symlink b (current_temp p))
    unfolding symlink
    symlink-Linked = record { at = λ w h. under_fault-Linked (head_fault w.faults) (charge w) h }

    copy_version-After :
        (mode : ℕ)
        → b ≡ base p.target
        → Ends (LinkAt p.current t) After (copy_version copy mount p mode)
    unfolding copy_version
    copy_version-After mode e =
        rw (sym e) (Ends-then Linked After (λ e w h. h) _ (λ _. temp-After mode) _ symlink-Linked)

  -- Whatever fails, and wherever it fails: `current` is a link to the old version when CopyComponent's
  -- copying of a version fails, and to the new one when it succeeds, where the copying library changes only what
  -- is at or below its destination, `current` was a link, and the name of the temporary link begins neither with
  -- the version's path, nor with that of `previous`, nor with the start of the temporary directory's.
  pub copy_version-current :
      (mode : ℕ) (t : Bytes) (w : World)
      → has_prefix (current_temp p) p.target ≡ false
      → has_prefix (current_temp p) p.previous ≡ false
      → has_prefix (current_temp p) (temp_place p) ≡ false
      → w.files p.current ≡ some (link t)
      → let (r, w') = copy_version copy mount p mode w in
        w'.files p.current ≡ some (link (chosen t (base p.target) r))
  copy_version-current mode t w n k l h =
      (copy_version-After t (base p.target) (n, k, l) mode refl).at w h
