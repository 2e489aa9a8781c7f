-- ===== src/Enter/Root/Quiet.antt =====
-- Mount where no call fails.
use edgi_os.Base.{
  Bytes, codes, ℕ, Bool, true, false, [], ◌∷◌, ◌++◌, some, ◌||◌, if◌then◌else◌, same, is_empty, ◌≡◌,
  ◌≢◌, refl, arith, bytes_discrete, Bool-cases, inl, inr,
}
use edgi_os.Os.World.{Result, ok, directory, World, emit, replaced, ◌>>=◌}
use edgi_os.Os.Files.{stat, read_file, follow, content, node_behind, max_links}
use edgi_os.Os.Process.{getenv, setenv, exec}
use edgi_os.Os.Replaced.{Last}
use edgi_os.Enter.Host.{Host}
use edgi_os.Enter.Loop.{wrapping, ensureloop}
use edgi_os.Enter.Root.{find_root, is_debug, names_debug, enter_again, enter_from, mount_root}

read_file-quiet :
    (p : Bytes) (w : World) → w.faults ≡ [] → (r : Result Bytes) × (read_file p w ≡ (r, w))
unfolding read_file
read_file-quiet p w f =
    (content (node_behind w.files (follow max_links w.files p)), rw (f, read_file) refl)

is_debug-quiet :
    (word : Bytes) (w : World) → w.faults ≡ [] → (b : Bool) × (is_debug word w ≡ (ok b, w))
unfolding is_debug getenv ◌>>=◌
is_debug-quiet word w f = elim (Bool-cases (same (w.env (codes "ENTER_DEBUG")) (codes "true"))) [
  | inl e ↦ (true, rw e refl)
  | inr n ↦ elim (Bool-cases (is_empty word)) [
    | inl e ↦ (false, rw n (rw e refl))
    | inr m ↦
        let (r, q) = read_file-quiet (codes "/proc/cmdline") w f in
        (names_debug word r, rw n (rw m (rw q refl)))
  ]
]

enter_again-quiet :
    (host : Host) (w : World)
    → host.pid ≡ 1
    → w.faults ≡ []
    → enter_again host w ≡ (
      ok true,
      emit
          (replaced host.program (codes "enter-root" ∷ host.arguments) w.env)
          (record w { faults = [] }),
    )
unfolding enter_again exec ◌>>=◌
enter_again-quiet host w p f = rw p (rw f refl)

-- The state of a process that runs as `enter-root`, with variables that name the data and the root.
abbrev pub Entered : Host → Bytes → Bytes → Result Bool → World → Type 0
Entered host data_dir root r w =
    (r ≡ ok true)
    × (w.env (codes "ENTER_DATA") ≡ data_dir)
    × (w.env (codes "ENTER_ROOT") ≡ root)
    × Last host.program (codes "enter-root" ∷ host.arguments) w

find_root-set :
    (host : Host) (root : Bytes) (w : World)
    → w.env (codes "ENTER_ROOT") ≡ root
    → root ≢ []
    → find_root host w ≡ (ok (root, 0), w)
unfolding find_root getenv ◌>>=◌
find_root-set host root w r n =
    let filled : is_empty (w.env (codes "ENTER_ROOT")) ≡ false = ground arith in
    rw filled (rw r refl)

stat-quiet :
    (p : Bytes) (m : ℕ) (w : World)
    → w.faults ≡ []
    → w.files p ≡ some (directory m)
    → stat p w ≡ (ok (directory m), w)
unfolding stat follow
stat-quiet p m w f d = rw (f, stat) (rw d (rw d refl))

-- The search for the root and what follows it.
rest-replaces :
    (host : Host) (data_dir root : Bytes) (m : ℕ) (w : World)
    → host.pid ≡ 1
    → w.faults ≡ []
    → w.env (codes "ENTER_ROOT") ≡ root
    → root ≢ []
    → w.files root ≡ some (directory m)
    → let (r, w') =
        (find_root host >>= λ (root, offset). setenv (codes "ENTER_DATA") data_dir >>= λ _.
        setenv (codes "ENTER_ROOT") root >>= λ _.
        wrapping (codes "failed to find " ++ root) (stat root) >>= λ info.
        enter_from host root offset info)
          w in
      Entered host data_dir root r w'
unfolding enter_from setenv ◌>>=◌ bytes_discrete
rest-replaces host data_dir root m w p f r n d =
    let named : World = record w {
      env = λ j.
          if same (codes "ENTER_ROOT") j
          then root
          else if same (codes "ENTER_DATA") j
          then data_dir
          else w.env j;
    } in
    rw (find_root-set host root w r n) (
      rw (stat-quiet root m named f d)
        (rw (enter_again-quiet host named p f) (refl, refl, refl, (w.trace, refl))))

-- For the first process, where the loop devices are prepared and no call fails after that, and the
-- variable of the root names a directory: Mount replaces the process, the last event is that the
-- program runs again as `enter-root` with the same arguments, and its variables name the data and
-- that root.
pub mount_root-replaces :
    (host : Host) (word data_dir root : Bytes) (verbose : Bool) (m : ℕ) (w v : World)
    → host.pid ≡ 1
    → ensureloop host w ≡ (ok tt, v)
    → v.faults ≡ []
    → v.env (codes "ENTER_ROOT") ≡ root
    → root ≢ []
    → v.files root ≡ some (directory m)
    → let (r, w') = mount_root host word verbose data_dir w in Entered host data_dir root r w'
unfolding mount_root setenv ◌>>=◌ bytes_discrete
mount_root-replaces host word data_dir root verbose m w v p e f r n d =
    let (debug, q) = is_debug-quiet word v f in
    rw e (
      rw q (elim (Bool-cases (verbose || debug)) [
        | inl y ↦ rw y (rest-replaces host data_dir root m _ p f r n d)
        | inr y ↦ rw y (rest-replaces host data_dir root m v p f r n d)
      ]))
