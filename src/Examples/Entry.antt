-- ===== src/Examples/Entry.antt =====
-- A root moved and entered, and the control groups read.
use edgi_os.Base.{same, if◌then◌else◌}
use edgi_os.Base.{
  codes, [], ◌∷◌, List, some, none, true, false, ◌≡◌, ◌≢◌, refl, arith, ap, ◌∙◌, length, All,
  bytes_discrete,
}
use edgi_os.Base.Strings.{plus, itoa}
use edgi_os.Base.Paths.{path_join}
use edgi_os.Os.World.{ok, file, directory, World, pure, gets, ◌>>=◌}
use edgi_os.Os.Files.{stat, chmod}
use edgi_os.Os.Tree.{mkdir_all, mkdir, mknod}
use edgi_os.Os.Process.{run, getenv, mount, chdir, chroot, exec_env, append_env}
use edgi_os.Os.Keeps.{Keeps-pure}
use edgi_os.Transfer
use edgi_os.Transfer.{relocate}
use edgi_os.Transfer.Once.Again.{relocate-once}
use edgi_os.Transfer.{
  Status, regular_kind, directory_kind, Trees, tree, no_tree, entry, move_file, walk, remove_rest,
}
use edgi_os.Transfer.Remains.{Spared, SparedBelow, remove_walk-spares}
use edgi_os.Transfer.Laws.{text_at, Saved, move_file-Saved}
use edgi_os.Enter.Loop.{ensureloop}
use edgi_os.Enter.Root.{mount_root}
use edgi_os.Cli.{initrd}
use edgi_os.Cli.Initrd.{Started, initrd-Started}
use edgi_os.Enter.Root.Quiet.{Entered, mount_root-replaces}
use edgi_os.Rc.Calls.{cgroup_list}
use edgi_os.Rc.Calls.Table.{Group, Plain, print_groups, enabled_groups, cgroup_list-enabled}
use edgi_os.Examples.{machine, standing}
use edgi_os.Examples.Boot.{host, disk}

abbrev hosts_status : Status
hosts_status = record {
  kind = regular_kind;
  mode = 0o644;
  uid = 0;
  gid = 0;
  accessed = 1;
  modified = 1;
  dev = 1;
  rdev = 0;
}

-- A kernel that keeps no owners and no times.
abbrev plain_kernel : Transfer.Kernel
plain_kernel = record {
  lchown = λ path uid gid. pure tt;
  utimes = λ path accessed modified. pure tt;
  mkfifo = λ path mode. pure tt;
  root_device = pure 1;
  statfs = pure (plus 0x01021994);
  directories = entry hosts_status no_tree;
  files = entry hosts_status no_tree;
  remains = entry hosts_status no_tree;
}

new_place : path_join (codes "/mnt" ∷ codes "/etc/hosts" ∷ []) ≡ codes "/mnt/etc/hosts"
unfolding path_join bytes_discrete
new_place = refl

new_place-ne : codes "/etc/hosts" ≢ path_join (codes "/mnt" ∷ codes "/etc/hosts" ∷ [])
new_place-ne e = omega (arith, ap length (e ∙ new_place))

new_place_free : machine.files (path_join (codes "/mnt" ∷ codes "/etc/hosts" ∷ [])) ≡ none
unfolding path_join bytes_discrete
new_place_free = refl

hosts-there :
    text_at (machine.files (codes "/etc/hosts"))
    ≡ some (codes "127.0.0.1 localhost\n127.0.1.1 old\n")
unfolding bytes_discrete
hosts-there = refl

move_file-Saved_example :
    Saved
      (codes "/etc/hosts")
      (path_join (codes "/mnt" ∷ codes "/etc/hosts" ∷ []))
      (codes "/etc/hosts")
      (codes "127.0.0.1 localhost\n127.0.1.1 old\n")
      (move_file plain_kernel (codes "/mnt") 1 (codes "/etc/hosts") hosts_status machine).1
move_file-Saved_example =
    move_file-Saved plain_kernel (λ path uid gid q s. Keeps-pure tt)
      (λ path at mt q s. Keeps-pure tt) (λ path mode q s. Keeps-pure tt) (codes "/mnt")
      (codes "/etc/hosts") (codes "/etc/hosts") (codes "127.0.0.1 localhost\n127.0.1.1 old\n") 1
      hosts_status machine new_place-ne hosts-there new_place_free

-- A root with another file system mounted in it.
abbrev root_status : Status
root_status = record hosts_status { kind = directory_kind }

abbrev proc_status : Status
proc_status = record hosts_status { kind = directory_kind; dev = 2 }

abbrev mounts : Trees
mounts =
    tree (codes "proc") (entry proc_status (tree (codes "1") (entry proc_status no_tree) no_tree))
      no_tree

proc-Spared :
    Spared 1
      (codes "/proc/1")
      (codes "/")
      (entry root_status (tree (codes "init") (entry hosts_status no_tree) mounts))
unfolding Spared SparedBelow path_join bytes_discrete
proc-Spared = ((λ e. omega (arith, ap length e), tt), (tt, tt))

abbrev mounted_kernel : Transfer.Kernel
mounted_kernel = record plain_kernel {
  directories = entry root_status mounts;
  files = entry root_status mounts;
  remains = entry root_status mounts;
}

-- What is mounted in that root stays when the walk removes the rest.
remove_walk-spares_example :
    (walk
        (remove_rest mounted_kernel 1)
        (codes "/")
        (entry root_status (tree (codes "init") (entry hosts_status no_tree) mounts))
        machine).1.files
      (codes "/proc/1")
    ≡ machine.files (codes "/proc/1")
remove_walk-spares_example =
    remove_walk-spares mounted_kernel 1
      (entry root_status (tree (codes "init") (entry hosts_status no_tree) mounts))
      (codes "/proc/1") machine proc-Spared

-- The move of that root, and what it leaves.
abbrev moved : World
moved = (relocate mounted_kernel machine).1

root_moved : relocate mounted_kernel machine ≡ (ok true, moved)
unfolding relocate getenv bytes_discrete mkdir_all mount chmod path_join mkdir chdir chroot gets
    exec_env append_env
root_moved = refl

relocate-once_example :
    relocate mounted_kernel moved
    ≡ (ok false, record moved { env = λ j. if same Transfer.relocated j then [] else moved.env j })
relocate-once_example =
    relocate-once mounted_kernel mounted_kernel machine moved (λ path uid gid. Keeps-pure tt)
      (λ path a m. Keeps-pure tt) (λ path m. Keeps-pure tt) (Keeps-pure 1) (Keeps-pure _) refl
      root_moved

initrd-Started_example : let (r, v) = initrd mounted_kernel host false machine in Started host r v
initrd-Started_example =
    initrd-Started mounted_kernel host false machine (λ e. cc) (λ e. cc) (λ p offset v. refl)

-- A root that is a directory.
abbrev rooted : World
rooted = record disk {
  files = standing ((codes "/root", directory 0o755) ∷ []);
  env = λ k. codes "/root";
}

abbrev prepared : World
prepared = (ensureloop host rooted).1

loops_prepared :
    (ensureloop host rooted ≡ (ok tt, prepared))
    × (prepared.faults ≡ [])
    × (prepared.env (codes "ENTER_ROOT") ≡ codes "/root")
    × (prepared.files (codes "/root") ≡ some (directory 0o755))
unfolding ensureloop ◌>>=◌ mkdir_all stat run mknod itoa bytes_discrete
loops_prepared = (refl, refl, refl, refl)

mount_root-replaces_example :
    let (r, w') = mount_root host [] false (codes "./edgi/data") rooted in
    Entered host (codes "./edgi/data") (codes "/root") r w'
mount_root-replaces_example =
    mount_root-replaces host [] (codes "./edgi/data") (codes "/root") false 0o755 rooted prepared
      refl loops_prepared.0 loops_prepared.1 loops_prepared.2 (λ e. cc) loops_prepared.3

abbrev groups : List Group
groups =
    record { name = codes "cpu"; hierarchy = codes "2"; count = codes "1"; enabled = codes "1" }
    ∷ record {
      name = codes "memory";
      hierarchy = codes "0";
      count = codes "1";
      enabled = codes "0";
    }
    ∷ []

groups-Plain : All Plain groups
groups-Plain = omega arith

abbrev listing : World
listing = record machine {
  files = standing ((codes "/proc/cgroups", file 0o444 (print_groups groups)) ∷ []);
}

cgroup_list-enabled_example : (cgroup_list listing).0 ≡ ok (enabled_groups groups)
unfolding bytes_discrete
cgroup_list-enabled_example = cgroup_list-enabled groups 0o444 listing groups-Plain refl refl
