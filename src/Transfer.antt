-- ===== src/Transfer.antt =====
-- pkg/transferroot/transferroot.go: the move of a root that is held in memory to a new file system, on which
-- pivot_root works.
pub mod Laws
pub mod Walks
pub mod Own
pub mod Remains
pub mod Once
use edgi_os.Base.{Bytes, codes, ℕ, ◌==◌, Bool, true, false, not, [], ◌∷◌, same, if◌then◌else◌}
use edgi_os.Base.Strings.{Signed, plus, minus}
use edgi_os.Base.Paths.{path_join}
use edgi_os.Os.World.{Error, message, M, pure, raise, gets, ◌>>=◌, ◌>>◌}
use edgi_os.Os.Logged.{ignored}
use edgi_os.Os.Files.{read_file, readlink, open_truncated, write_open, close, chmod}
use edgi_os.Os.Tree.{mkdir, mkdir_all, symlink, mknod, remove, remove_all}
use edgi_os.Os.Process.{mount, getenv, setenv, exec_env, append_env, chdir, chroot}

pub data Kind : Type 0 where
  directory_kind : Kind
  regular_kind : Kind
  symlink_kind : Kind
  device_kind : Kind
  pipe_kind : Kind
  socket_kind : Kind
  other_kind : Kind

-- os.FileInfo with the Stat_t behind it
pub record Status : Type 0 where
  pub kind : Kind
  pub mode : ℕ
  pub uid : ℕ
  pub gid : ℕ
  pub accessed : ℕ
  pub modified : ℕ
  pub dev : ℕ
  pub rdev : ℕ

-- What filepath.Walk meets: an entry with those below it, in their order, or one that cannot be read.
mutual
  pub data Tree : Type 0 where
    unreadable : Error → Tree
    entry : Status → Trees → Tree

  pub data Trees : Type 0 where
    no_tree : Trees
    tree : Bytes → Tree → Trees → Trees

-- What a visit returns: nil, or filepath.SkipDir.
pub data Step : Type 0 where
  descend : Step
  skip_dir : Step

unfoldable mutual
  unfolding ◌>>=◌

  pub walk : (Bytes → Status → M Step) → Bytes → Tree → M (Unit {0})
  walk visit path (unreadable e) = raise e
  walk visit path (entry s below) =
      let rest = walk_below visit path below in
      do step ← visit path s; elim step [ descend ↦ rest | skip_dir ↦ pure tt ]

  pub walk_below : (Bytes → Status → M Step) → Bytes → Trees → M (Unit {0})
  walk_below visit path no_tree = pure tt
  walk_below visit path (tree name t ts) =
      let rest = walk_below visit path ts in walk visit (path_join (path ∷ name ∷ [])) t >> rest

abbrev pub is_dir : Kind → Bool
is_dir directory_kind = true
is_dir _ = false

abbrev pub is_link : Kind → Bool
is_link symlink_kind = true
is_link _ = false

-- What the move takes from the kernel.
pub record Kernel : Type 0 where
  -- unix.Lchown, unix.UtimesNanoAt without following links, and unix.Mkfifo
  pub lchown : Bytes → ℕ → ℕ → M (Unit {0})
  pub utimes : Bytes → ℕ → ℕ → M (Unit {0})
  pub mkfifo : Bytes → ℕ → M (Unit {0})
  -- the device of `/`, and the type of the file system of `.` by unix.Statfs
  pub root_device : M ℕ
  pub statfs : M Signed
  -- the tree under `/` as each of the three walks meets it, entry by entry; the third one does not go
  -- down in a directory that it removes
  pub directories : Tree
  pub files : Tree
  pub remains : Tree

abbrev pub relocated : Bytes
relocated = codes "EDGI_RELOCATED"

abbrev pub next_init : Bytes
next_init = codes "/init"

-- MS_MOVE
abbrev pub move_flag : ℕ
move_flag = 0x2000

-- ramfsMagic is negative, as a 32-bit number is.
abbrev pub is_in_memory : Signed → Bool
is_in_memory (plus n) = n == 0x01021994
is_in_memory (minus n) = n == 2054924042

abbrev pub step_unless : Bool → Step
step_unless true = skip_dir
step_unless false = descend

-- What follows once the copy is open: io.CopyBuffer, both files closed and the old one removed.
abbrev pub copy_content : Bytes → Bytes → M (Unit {0})
copy_content path dest = do
  content ← read_file path
  write_open dest content
  close path
  close dest
  ignored (remove path)

module _ (kernel : Kernel) where
  unfoldable pub copy_metadata : Status → Bytes → M (Unit {0})
  copy_metadata info path = do
    kernel.lchown path info.uid info.gid
    kernel.utimes path info.accessed info.modified
    if is_link info.kind then pure tt else chmod path info.mode

  -- The first walk makes the directories.
  unfoldable pub copy_directory : Bytes → ℕ → Bytes → Status → M Step
  unfolding copy_metadata
  copy_directory new_root root_dev path info =
      if is_dir info.kind
      then (do
        if same path (codes "/")
            then chmod new_root info.mode
            else mkdir (path_join (new_root ∷ path ∷ [])) info.mode
        copy_metadata info (path_join (new_root ∷ path ∷ []))
        pure (step_unless (not (root_dev == info.dev))))
      else pure descend

  -- A regular file is copied and removed. The file system of the copy is new, so that its file is new too.
  unfoldable pub move_regular : Bytes → Bytes → ℕ → M (Unit {0})
  move_regular path dest mode = do open_truncated dest mode; copy_content path dest

  abbrev pub move_kind : Kind → Bytes → Bytes → Status → M (Unit {0})
  move_kind directory_kind path dest info = pure tt
  move_kind regular_kind path dest info = move_regular path dest info.mode
  move_kind symlink_kind path dest info = do target ← readlink path; symlink target dest
  move_kind device_kind path dest info = mknod dest info.mode info.rdev
  move_kind pipe_kind path dest info = kernel.mkfifo dest info.mode
  move_kind socket_kind path dest info = raise (message (codes "Unsupported socket on rootfs"))
  move_kind other_kind path dest info = raise (message (codes "Unknown file type"))

  -- The second walk moves all that is no directory.
  unfoldable pub move_file : Bytes → ℕ → Bytes → Status → M Step
  unfolding move_regular copy_metadata
  move_file new_root root_dev path info =
      if is_dir info.kind then pure (step_unless (not (root_dev == info.dev))) else (do
        move_kind info.kind path (path_join (new_root ∷ path ∷ [])) info
        copy_metadata info (path_join (new_root ∷ path ∷ []))
        pure descend)

  -- The third walk removes what is left. A directory goes with all that stands below its path, also where
  -- other file systems are mounted there.
  unfoldable pub remove_rest : ℕ → Bytes → Status → M Step
  remove_rest root_dev path info =
      if same path (codes "/")
      then pure descend
      else if not (is_dir info.kind)
      then (do ignored (remove path); pure descend)
      else if root_dev == info.dev
      then (do ignored (remove_all path); pure skip_dir)
      else pure skip_dir

  -- The directory that the process is in becomes the root.
  unfoldable pub take_root : M (Unit {0})
  take_root = do
    mount (codes ".") (codes "/") [] move_flag []
    chroot (codes ".")
    chdir (codes "/")

  unfoldable pub copy_fs : Bytes → M (Unit {0})
  unfolding walk copy_directory move_file remove_rest take_root
  copy_fs new_root = do
    root_dev ← kernel.root_device
    mount (codes "rootfs") new_root (codes "tmpfs") 0 []
    walk (copy_directory new_root root_dev) (codes "/") kernel.directories
    walk (move_file new_root root_dev) (codes "/") kernel.files
    chdir new_root
    walk (remove_rest root_dev) (codes "/") kernel.remains
    take_root

  -- Relocate. A fatal error ends the program, as an error here ends the action; the variable is added for the
  -- program that takes the place of this one. The result says whether the process was replaced.
  unfoldable pub relocate : M Bool
  unfolding copy_fs
  relocate = do
    done ← getenv relocated
    if same done (codes "true") then (do setenv relocated []; pure false) else (do
      kind ← kernel.statfs
      if is_in_memory kind
          then (do
            mkdir_all (codes "/mnt") 0o755
            copy_fs (codes "/mnt")
            env ← gets (λ w. w.env)
            exec_env next_init (next_init ∷ []) (append_env relocated (codes "true") env)
            pure true)
          else pure false)
