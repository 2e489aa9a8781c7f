-- ===== src/Transfer/Laws.antt =====
-- What the move of a root does to the content of a file.
use edgi_os.Base.{
  Bytes, ℕ, Bool, if◌then◌else◌, true, false, [], ◌∷◌, Option, none, some, ◌≡◌, ◌≢◌, ◌⊎◌, inl, inr,
  ◌∙◌, refl, sym, arith, bytes_discrete, ◌==◌, not,
}
use edgi_os.Base.Paths.{path_join}
use edgi_os.Os.World.{
  Result, ok, err, Node, file, directory, link, Fault, fine, fail, short, under_fault, head_fault,
  charge, World, M, pure, raise, attempt, ◌>>=◌,
}
use edgi_os.Os.Files.{
  readlink, read_file, open_truncated, write_open, close, chmod, chmod_at, follow, max_links,
  with_mode,
}
use edgi_os.Os.Tree.{remove, symlink, mknod}
use edgi_os.Os.Keeps.{Keeps, Keeps-pure, Keeps-attempt, Keeps-bind, Keeps-after}
use edgi_os.Transfer.{
  Kernel, Status, Step, descend, Kind, copy_content, step_unless, regular_kind, directory_kind,
  symlink_kind, device_kind, pipe_kind, socket_kind, other_kind, move_kind, is_dir, is_link,
  move_regular, move_file, copy_metadata,
}

-- The content of a file.
abbrev pub text_at : Option Node → Option Bytes
text_at (some (file mode s)) = some s
text_at _ = none

-- What a move of a file leaves, by its result: the whole content at the new place, and after a
-- failure the file where it was.
abbrev Copied : Bytes → Bytes → Bytes → Result (Unit {0}) → World → Type 0
Copied path dest s (ok _) w = text_at (w.files dest) ≡ some s
Copied path dest s (err e) w = text_at (w.files path) ≡ some s

move_regular-Copied :
    (kernel : Kernel) (path dest s : Bytes) (mode m : ℕ) (w : World)
    → path ≢ dest
    → w.files path ≡ some (file m s)
    → w.files dest ≡ none
    → let (r, w') = move_regular kernel path dest mode w in Copied path dest s r w'
unfolding move_regular open_truncated read_file write_open close remove follow ◌>>=◌
move_regular-Copied kernel path dest s mode m w n h e = ground arith

abbrev Text : Bytes → Bytes → World → Type 0
Text q s w = text_at (w.files q) ≡ some s

with_mode-text : (mode : ℕ) (n : Node) → text_at (some (with_mode mode n)) ≡ text_at (some n)
with_mode-text mode (file m s) = refl
with_mode-text mode (directory m) = refl
with_mode-text mode (link t) = refl

chmod_at-Text :
    (o : Option Bytes) (q s : Bytes) (mode : ℕ) (w : World)
    → Text q s w
    → Text q s (chmod_at o mode w).1
chmod_at-Text none q s mode w h = h
chmod_at-Text (some r) q s mode w h = ground (arith, with_mode-text mode)

under_fault-Text {ℓ} :
    {A : Type ℓ} (f : Fault) (m : M A) (q s : Bytes) (w : World)
    → Text q s w
    → Text q s (m w).1
    → Text q s (under_fault f m w).1
under_fault-Text fine m q s w h g = g
under_fault-Text (fail e) m q s w h g = h
under_fault-Text (short n e) m q s w h g = h

chmod-Text : (path q s : Bytes) (mode : ℕ) → Keeps (Text q s) (chmod path mode)
unfolding chmod
chmod-Text path q s mode = record {
  at = λ w h.
      under_fault-Text (head_fault w.faults) _ q s (charge w) h
        (chmod_at-Text (follow max_links w.files path) q s mode (charge w) h);
}

-- The content that stood at a path is there, or it is at the new place and the path is the one
-- that was moved.
pub Saved : Bytes → Bytes → Bytes → Bytes → World → Type 0
Saved path dest q s w = Text q s w ⊎ ((q ≡ path) × Text dest s w)

-- Where a visit starts: the content stands, and the new place is free.
abbrev Before : Bytes → Bytes → Bytes → World → Type 0
Before dest q s w = Text q s w × (w.files dest ≡ none)

Saved-Keeps :
    {m : M (Unit {0})} (path dest q s : Bytes)
    → ((p t : Bytes) → Keeps (Text p t) m)
    → Keeps (Saved path dest q s) m
unfolding Saved
Saved-Keeps path dest q s k = record {
  at = λ w h. elim h [
    | inl here ↦ inl ((k q s).at w here)
    | inr (e, there) ↦ inr (e, (k dest s).at w there)
  ];
}

-- The calls that leave the content at `q` as it is.
module _ (q s : Bytes) where
  read_file-Text : (path : Bytes) → Keeps (Text q s) (read_file path)
  unfolding read_file
  read_file-Text path = record {
    at = λ w h. under_fault-Text (head_fault w.faults) _ q s (charge w) h h;
  }

  close-Text : (path : Bytes) → Keeps (Text q s) (close path)
  unfolding close
  close-Text path = record {
    at = λ w h. under_fault-Text (head_fault w.faults) _ q s (charge w) h h;
  }

  remove-Text : (path : Bytes) → q ≢ path → Keeps (Text q s) (remove path)
  unfolding remove
  remove-Text path n = record { at = λ w h. ground arith }

  write_open-Text : (path t : Bytes) → q ≢ path → Keeps (Text q s) (write_open path t)
  unfolding write_open
  write_open-Text path t n = record { at = λ w h. ground arith }

  open_truncated-Text :
      (path : Bytes) (mode : ℕ) (w : World)
      → Text q s w
      → w.files path ≡ none
      → Text q s (open_truncated path mode w).1
  unfolding open_truncated follow
  open_truncated-Text path mode w h e = ground arith

  ne_of_free : (dest : Bytes) (w : World) → Text q s w → w.files dest ≡ none → q ≢ dest
  ne_of_free dest w h e p = ground arith

  copy_content-Text :
      (path dest : Bytes) → q ≢ path → q ≢ dest → Keeps (Text q s) (copy_content path dest)
  copy_content-Text path dest n o = Keeps-bind (read_file path) (read_file-Text path) _ (λ t.
      Keeps-bind (write_open dest t) (write_open-Text dest t o) _ (λ _.
        Keeps-bind (close path) (close-Text path) _ (λ _.
          Keeps-bind (close dest) (close-Text dest) _ (λ _.
            Keeps-bind (attempt (remove path)) (Keeps-attempt (remove path) (remove-Text path n)) _
              (λ _. Keeps-pure tt)))))

move_regular-other :
    (kernel : Kernel) (path dest q s : Bytes) (mode : ℕ) (w : World)
    → q ≢ path
    → Text q s w
    → w.files dest ≡ none
    → Text q s (move_regular kernel path dest mode w).1
unfolding move_regular
move_regular-other kernel path dest q s mode w n h e =
    Keeps-after {P = Text q s} (open_truncated dest mode) (λ _. copy_content path dest)
      (λ _. copy_content-Text q s path dest n (ne_of_free q s dest w h e)) w
      (open_truncated-Text q s dest mode w h e)

copy_link-Text :
    (path dest q s : Bytes) (w : World)
    → Text q s w
    → w.files dest ≡ none
    → Text q s ((readlink path >>= λ target. symlink target dest) w).1
unfolding readlink symlink ◌>>=◌
copy_link-Text path dest q s w h e = ground arith

mknod-Text :
    (dest q s : Bytes) (mode dev : ℕ) (w : World)
    → Text q s w
    → w.files dest ≡ none
    → Text q s (mknod dest mode dev w).1
unfolding mknod
mknod-Text dest q s mode dev w h e = ground arith

move_regular-here :
    (kernel : Kernel) (path dest s : Bytes) (mode : ℕ) (o : Option Node) (w : World)
    → path ≢ dest
    → w.files path ≡ o
    → text_at o ≡ some s
    → w.files dest ≡ none
    → let (r, w') = move_regular kernel path dest mode w in Copied path dest s r w'
move_regular-here kernel path dest s mode (some (file m t)) w n h g e =
    move_regular-Copied kernel path dest s mode m w n (h ∙ ground arith) e
move_regular-here kernel path dest s mode o w n h g e = ground arith

Copied-Saved :
    (path dest s : Bytes) (r : Result (Unit {0})) (w : World)
    → Copied path dest s r w
    → Saved path dest path s w
unfolding Saved
Copied-Saved path dest s (ok _) w h = inr (refl, h)
Copied-Saved path dest s (err e) w h = inl h

move_regular-Saved :
    (kernel : Kernel) (path dest q s : Bytes) (mode : ℕ) (w : World)
    → path ≢ dest
    → Text q s w
    → w.files dest ≡ none
    → Saved path dest q s (move_regular kernel path dest mode w).1
unfolding Saved
move_regular-Saved kernel path dest q s mode w n h e = elim (bytes_discrete q path) [
  | yes p ↦ rw p (
      Copied-Saved path dest s (move_regular kernel path dest mode w).0
        (move_regular kernel path dest mode w).1
        (move_regular-here kernel path dest s mode (w.files path) w n refl (rw (sym p) h) e))
  | no o ↦ inl (move_regular-other kernel path dest q s mode w o h e)
]

unless_link :
    (b : Bool) (path : Bytes) (mode : ℕ) (q s : Bytes)
    → Keeps (Text q s) (if b then pure tt else chmod path mode)
unless_link true path mode q s = Keeps-pure tt
unless_link false path mode q s = chmod-Text path q s mode

-- lchown, utimes and mkfifo leave the contents of files as they are.
module _ (kernel : Kernel)
    (lchown-Text : (path : Bytes) (uid gid : ℕ) (q s : Bytes)
      → Keeps (Text q s) (kernel.lchown path uid gid))
    (utimes-Text : (path : Bytes) (at mt : ℕ) (q s : Bytes)
      → Keeps (Text q s) (kernel.utimes path at mt))
    (mkfifo-Text : (path : Bytes) (mode : ℕ) (q s : Bytes)
      → Keeps (Text q s) (kernel.mkfifo path mode)) where
  copy_metadata-Text :
      (info : Status) (path q s : Bytes) → Keeps (Text q s) (copy_metadata kernel info path)
  unfolding copy_metadata
  copy_metadata-Text info path q s =
      Keeps-bind (kernel.lchown path info.uid info.gid) (lchown-Text path info.uid info.gid q s) _
        (λ _.
          Keeps-bind (kernel.utimes path info.accessed info.modified)
            (utimes-Text path info.accessed info.modified q s) _
            (λ _. unless_link (is_link info.kind) path info.mode q s))

  move_kind-Saved :
      (k : Kind) (info : Status) (path dest q s : Bytes) (w : World)
      → path ≢ dest
      → Before dest q s w
      → Saved path dest q s (move_kind kernel k path dest info w).1
  unfolding Saved
  move_kind-Saved directory_kind info path dest q s w n (h, e) = unfold pure in inl h
  move_kind-Saved regular_kind info path dest q s w n (h, e) =
      move_regular-Saved kernel path dest q s info.mode w n h e
  move_kind-Saved symlink_kind info path dest q s w n (h, e) =
      inl (copy_link-Text path dest q s w h e)
  move_kind-Saved device_kind info path dest q s w n (h, e) =
      inl (mknod-Text dest q s info.mode info.rdev w h e)
  move_kind-Saved pipe_kind info path dest q s w n (h, e) =
      inl ((mkfifo-Text dest info.mode q s).at w h)
  move_kind-Saved socket_kind info path dest q s w n (h, e) = unfold raise in inl h
  move_kind-Saved other_kind info path dest q s w n (h, e) = unfold raise in inl h

  visit-Saved :
      (b : Bool) (step : Step) (info : Status) (path dest q s : Bytes) (w : World)
      → path ≢ dest
      → Before dest q s w
      → Saved path dest q s
          ((if b
              then pure step
              else (move_kind kernel info.kind path dest info >>= λ _.
                  copy_metadata kernel info dest >>= λ _. pure descend))
            w).1
  visit-Saved true step info path dest q s w n (h, e) = unfold Saved pure in inl h
  visit-Saved false step info path dest q s w n h =
      Keeps-after {P = Saved path dest q s} (move_kind kernel info.kind path dest info)
        (λ _. copy_metadata kernel info dest >>= λ _. pure descend)
        (λ _.
          Keeps-bind (copy_metadata kernel info dest)
            (Saved-Keeps path dest q s (copy_metadata-Text info dest)) _ (λ _. Keeps-pure descend))
        w (move_kind-Saved info.kind info path dest q s w n h)

  -- Under any faults, where setting owner and times and making a pipe leave the contents of files:
  -- a visit of the walk that moves the files, of a path whose new place is another one and free,
  -- loses no content. What stood at any path is there afterwards, or it is at the new place and
  -- that path is the one that was visited.
  pub move_file-Saved :
      (new_root path q s : Bytes) (root_dev : ℕ) (info : Status) (w : World)
      → path ≢ path_join (new_root ∷ path ∷ [])
      → Text q s w
      → w.files (path_join (new_root ∷ path ∷ [])) ≡ none
      → Saved path
          (path_join (new_root ∷ path ∷ []))
          q
          s
          (move_file kernel new_root root_dev path info w).1
  unfolding move_file
  move_file-Saved new_root path q s root_dev info w n h e =
      visit-Saved (is_dir info.kind) (step_unless (not (root_dev == info.dev))) info path
        (path_join (new_root ∷ path ∷ [])) q s w n (h, e)
