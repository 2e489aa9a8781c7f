-- ===== src/Ssh/Keys/Laws.antt =====
-- The authorized keys and how they are fetched.
use Prim.Native.Nat.{bit_and}
use edgi_os.Base.{
  Bytes, codes, ℕ, zero, suc, true, false, List, [], ◌∷◌, ◌++◌, Option, none, some, ◌≡◌, ◌⊎◌, inl,
  inr, refl, ap, ◌≢◌, sym, map, append-nil, ◌<◌, length, All, Option-cases, arith, has_prefix,
  contains, has_prefix-append, append_assoc, Bool-cases,
}
use edgi_os.Base.Strings.{Signed}
use edgi_os.Os.World.{
  Error, not_exist, Result, ok, err, Node, file, Event, fetched, slept, Response, World, pure,
  continue, charge, ◌>>=◌,
}
use edgi_os.Os.Files.{stat}
use edgi_os.Os.Tree.{chown}
use mathlib.Core.Path.{subst}
use edgi_os.Os.Faults.{read_file-cases, stat-cases}
use edgi_os.Os.Process.{http_get}
use edgi_os.Util.Atomic.{write_file_atomic}
use edgi_os.Util.Atomic.Laws.{Replaced, write_file_atomic-Replaced}
use edgi_os.Ssh.Keys.{
  add_key, stat_or_create, Url, is_unsupported, get_key, parse_url, get_retry, append_key,
  rewrite_keys,
}

has_prefix-contains : (s p : Bytes) → has_prefix s p ≡ true → contains s p ≡ true
unfolding contains
has_prefix-contains [] p h = h
has_prefix-contains (c ∷ s) p h = rw h

pub contains-append : (a p s : Bytes) → contains (a ++ (p ++ s)) p ≡ true
unfolding contains
contains-append [] p s = has_prefix-contains (p ++ s) p (has_prefix-append p s)
contains-append (c ∷ a) p s = ground (arith, contains-append a p s)

-- After the key was added it occurs in the file, the old content stands in front, and adding it
-- again changes nothing.
pub add_key_idem :
    (bytes key : Bytes)
    → (contains (add_key bytes key) key ≡ true)
      × ((more : Bytes) × (add_key bytes key ≡ bytes ++ more))
      × (add_key (add_key bytes key) key ≡ add_key bytes key)
unfolding add_key
add_key_idem bytes key = elim (Bool-cases (contains bytes key)) [
  | inl e ↦ (rw e e, ([], rw e (sym (append-nil bytes))), rw e (rw e refl))
  | inr n ↦
      let c : contains ((bytes ++ key) ++ 10 ∷ []) key ≡ true =
        rw append_assoc (contains-append bytes key (10 ∷ [])) in
      (rw n c, (key ++ 10 ∷ [], rw n (append_assoc bytes key (10 ∷ []))), rw n (rw c refl))
]

-- With no network nothing is asked for and nothing changes: a key that is no URL stands for
-- itself, and a URL for no key.
pub get_key-offline :
    (key : Bytes) (w : World)
    → ((parse_url key ≡ none) × (get_key key false w ≡ (ok key, w)))
      ⊎ ((u : Url) × (parse_url key ≡ some u) × (get_key key false w ≡ (ok [], w)))
get_key-offline key w = elim (Option-cases (parse_url key)) [
  | inl e ↦ inl (e, unfold get_key pure in rw (e, get_key))
  | inr (u, e) ↦ inr (u, e, unfold get_key pure in rw (e, get_key))
]

-- The events of so many failed requests, each with its pause.
pub retries : ℕ → Bytes → List Event
retries zero url = []
retries (suc n) url = fetched url ∷ slept ∷ retries n url

-- The first answer after failures, fewer than the requests that are left, is returned. Each failed
-- request was followed by a pause, and nothing is asked for after the answer.
pub get_retry-first :
    (n : ℕ) (errors : List Error) (resp : Response) (rest : List (Result Response)) (url : Bytes)
    (last : Error) (w : World)
    → w.responses ≡ map err errors ++ ok resp ∷ rest
    → All (λ e. is_unsupported e ≡ false) errors
    → length errors < n
    → ((get_retry n url last w).0 ≡ ok resp)
      × ((get_retry n url last w).1.responses ≡ rest)
      × ((get_retry n url last w).1.trace
          ≡ w.trace ++ (retries (length errors) url ++ fetched url ∷ []))
unfolding get_retry http_get retries ◌>>=◌
get_retry-first zero errors resp rest url last w e u h = absurd (omega arith)
get_retry-first (suc n) [] resp rest url last w e u h = ground arith
get_retry-first (suc n) (x ∷ errors) resp rest url last w e (u, us) h =
    let w' : World = record w {
      responses = map err errors ++ ok resp ∷ rest;
      trace = (w.trace ++ fetched url ∷ []) ++ slept ∷ [];
    } in
    let ends : List Event = retries (length errors) url ++ fetched url ∷ [] in
    ground (
      arith,
      get_retry-first n errors resp rest url x w' refl us (omega arith),
      append_assoc (w.trace ++ fetched url ∷ []) (slept ∷ []) ends,
      append_assoc w.trace (fetched url ∷ []) (slept ∷ ends),
    )

-- What the file of keys may hold when the write and the change of owner are over: on success the new
-- content with the permissions, and otherwise that or the old file.
abbrev pub KeyFile : Bytes → Bytes → ℕ → ℕ → Bytes → Result (Unit {0}) → World → Type 0
KeyFile path s m perm new (ok _) w = w.files path ≡ some (file perm new)
KeyFile path s m perm new (err e) w =
    (w.files path ≡ some (file m s)) ⊎ (w.files path ≡ some (file perm new))

chown-KeyFile :
    (path s new : Bytes) (m perm : ℕ) (uid gid : Signed) (r : Result (Unit {0})) (w : World)
    → Replaced path new perm (some (file m s)) r w
    → let (r', w') = continue r (λ _. chown path uid gid) w in KeyFile path s m perm new r' w'
unfolding chown
chown-KeyFile path s new m perm uid gid (ok _) w h = ground arith
chown-KeyFile path s new m perm uid gid (err e) w h = ground arith

rewrite_keys-KeyFile :
    (key path s : Bytes) (m k : ℕ) (t : Bytes) (uid gid : Signed) (w : World)
    → w.files path ≡ some (file m s)
    → let (r, w') = rewrite_keys key path uid gid (file k t) w in
      KeyFile path s m (bit_and k 0o777) (add_key s key) r w'
rewrite_keys-KeyFile key path s m k t uid gid w e =
    let perm = bit_and k 0o777 in
    let new = add_key s key in
    elim (read_file-cases path s m w e) [
      | inl read ↦
          unfold rewrite_keys ◌>>=◌ in
          rw (read, rewrite_keys)
            (chown-KeyFile path s new m perm uid gid _ _ (
              subst
                (λ (o : Option Node).
                  Replaced path new perm o (write_file_atomic path new perm (charge w)).0
                    (write_file_atomic path new perm (charge w)).1)
                e (write_file_atomic-Replaced path new perm (charge w))))
      | inr (x, failed) ↦ unfold rewrite_keys ◌>>=◌ in rw (failed, rewrite_keys) (inl e)
    ]

-- The old content with the key on a line of its own behind it, unless the key occurs in it.
pub Added : Bytes → Bytes → Bytes → Type 0
Added s key new =
    ((contains s key ≡ true) × (new ≡ s))
    ⊎ ((contains s key ≡ false) × (new ≡ s ++ (key ++ codes "\n")))

add_key-Added : (s key : Bytes) → Added s key (add_key s key)
unfolding add_key Added
add_key-Added s key = elim (Bool-cases (contains s key)) [
  | inl e ↦ inl (e, rw e refl)
  | inr n ↦ inr (n, rw n (append_assoc s key (10 ∷ [])))
]

append_from :
    (key path s : Bytes) (m : ℕ) (uid gid : Signed) (w : World) (e : Error)
    → w.files path ≡ some (file m s)
    → e ≢ not_exist
    → let (r, w') = (stat_or_create path (err e) >>= rewrite_keys key path uid gid) w in
      KeyFile path s m (bit_and m 0o777) (add_key s key) r w'
unfolding ◌>>=◌
append_from key path s m uid gid w not_exist h n = absurd (n refl)
append_from key path s m uid gid w e h n = inl h

append_key-KeyFile :
    (key path s : Bytes) (m : ℕ) (uid gid : Signed) (w : World)
    → w.files path ≡ some (file m s)
    → (stat path w).0 ≢ err not_exist
    → let (r, w') = append_key key path uid gid w in
      KeyFile path s m (bit_and m 0o777) (add_key s key) r w'
append_key-KeyFile key path s m uid gid w h n = elim (stat-cases path s m w h) [
  | inl e ↦
      unfold append_key ◌>>=◌ in
      rw (e, append_key) (rewrite_keys-KeyFile key path s m m s uid gid (charge w) h)
  | inr (x, e) ↦
      unfold append_key ◌>>=◌ in
      rw (e, append_key)
        (append_from key path s m uid gid (charge w) x h
          (λ p. n (rw e (ap (λ (y : Error). err y) p))))
]

-- On an authorized-keys file that exists, and that os.Stat does not report as missing: the new
-- content is the old one if the key occurs in it, and otherwise the old one with the key and a
-- newline behind it. Success means that the file holds the new content and keeps its permission
-- bits; after any failure it holds either the old content or the new one, and nothing between.
pub append_key-atomic :
    (key path s : Bytes) (m : ℕ) (uid gid : Signed) (w : World)
    → w.files path ≡ some (file m s)
    → (stat path w).0 ≢ err not_exist
    → let (r, w') = append_key key path uid gid w in
      (new : Bytes) × Added s key new × KeyFile path s m (bit_and m 0o777) new r w'
append_key-atomic key path s m uid gid w h n =
    (add_key s key, add_key-Added s key, append_key-KeyFile key path s m uid gid w h n)
