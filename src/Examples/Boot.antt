-- ===== src/Examples/Boot.antt =====
-- The image found, the root entered, the first steps of a boot, and a version copied.
use mathlib.Core.List.{foldl}
use edgi_os.Base.{
  Bytes, codes, ◌+◌, ◌*◌, [], ◌∷◌, ◌++◌, some, true, false, ◌≡◌, ◌≢◌, refl, arith, length,
  has_prefix, bytes_discrete,
}
use edgi_os.Base.Strings.{trim_space}
use edgi_os.Base.Paths.{clean, base, split_path}
use edgi_os.Os.World.{
  Error, errno, ok, err, World, file, link, M, pivoted, chrooted, moved_to, replaced,
}
use edgi_os.Os.Files.{update, follow, max_links}
use edgi_os.Os.Tree.{is_within, join_path}
use edgi_os.Enter.Host.{Host}
use edgi_os.Enter.Scan.{find_image}
use edgi_os.Enter.Scan.Laws.{joined}
use edgi_os.Enter.Scan.Image.{
  mark, find_image-reads, find_image-behind, find_image-first, find_image-missed,
}
use edgi_os.Enter.Run.{switch_root}
use edgi_os.Enter.Run.Laws.{Cleared, switch_root-replaced}
use edgi_os.Rc.Calls.{Kernel}
use edgi_os.Rc.Steps.{rc, do_hostname}
use edgi_os.Rc.Steps.Laws.{steps, rc-completes}
use edgi_os.Rc.Steps.Name.{Named, do_hostname-Named}
use edgi_os.Component.{Places, copy_version, current_temp, temp_place}
use edgi_os.Component.Apart.{chosen}
use edgi_os.Component.Laws.{copy_version-current}
use edgi_os.Upgrade.{Options, upgrade}
use edgi_os.Upgrade.Laws.{upgrade-locked}
use edgi_os.Examples.{machine, standing}

find_image-reads_example :
    find_image (ok (codes "ab_sq") ∷ ok (codes "magic_x") ∷ [])
    ≡ find_image (ok (codes "ab_sqmag") ∷ ok (codes "ic_x") ∷ [])
unfolding joined
find_image-reads_example =
    find_image-reads (codes "ab_sq" ∷ codes "magic_x" ∷ []) (codes "ab_sqmag" ∷ codes "ic_x" ∷ [])
      refl

found-at : find_image (ok (codes "ab_sq") ∷ ok (codes "magic_x") ∷ []) ≡ ok 11
unfolding find_image
found-at = refl

find_image-behind_example :
    (start : Bytes) × (after : Bytes) × (joined (codes "ab_sq" ∷ codes "magic_x" ∷ [])
      ≡ start ++ (mark ++ after))
    × (11 ≡ length (start ++ mark))
find_image-behind_example = find_image-behind (codes "ab_sq" ∷ codes "magic_x" ∷ []) 11 found-at

find_image-first_example :
    find_image (ok (codes "ab_sq") ∷ ok (codes "magic_x") ∷ []) ≡ ok (length (codes "ab" ++ mark))
unfolding joined
find_image-first_example =
    find_image-first (codes "ab_sq" ∷ codes "magic_x" ∷ []) (codes "ab") (codes "x") refl
      (ground arith, (ground arith, tt))

find_image-missed_example : (e : Error) × (find_image (ok (codes "a__sqmagic_x") ∷ []) ≡ err e)
unfolding joined
find_image-missed_example =
    find_image-missed (codes "a__sqmagic_x" ∷ []) (codes "a") (codes "x") refl (ground arith, tt)
      (ground arith, tt)

-- A machine that mounts what it is asked to.
abbrev pub host : Host
host = record {
  mounted = λ path w. (ok true, w);
  mount = λ source target fstype options w. (ok tt, w);
  force_mount = λ source target fstype options w. (ok tt, w);
  attach = λ path offset w. (ok (codes "/dev/loop0"), w);
  detach = λ device w. (ok tt, w);
  flags = λ device w. (ok 1, w);
  set_flags = λ device flags w. (ok tt, w);
  auto_clear = 4;
  set_limit = λ resource cur max w. (ok tt, w);
  read_dir = λ path w. (ok [], w);
  self = codes "/edgi";
  reads = [];
  program = codes "/init";
  arguments = [];
  pid = 1;
}

abbrev pub disk : World
disk = record machine {
  files = standing (
      (codes "./edgi/data/usr/init", file 0o755 [])
      ∷ (codes "edgi/data/usr/init", file 0o755 [])
      ∷ (codes "/sys/class/net/eth0/address", file 0o444 (codes "02:42\n"))
      ∷ (codes "/edgi/system/k3s/current", link (codes "v1"))
      ∷ (codes "/run/lock", file 0o644 [])
      ∷ []);
}

init-there : disk.files (clean (codes "./edgi/data") ++ codes "/usr/init") ≡ some (file 0o755 [])
unfolding clean bytes_discrete
init-there = refl

switch_root-replaced_example :
    let (r, w') = switch_root host (codes "./edgi/data") disk in
    (r ≡ ok tt)
    × ((env : Bytes → Bytes) × (w'.trace
          ≡ pivoted (codes ".") (codes ".base")
            ∷ chrooted (codes "/")
            ∷ moved_to (codes "/")
            ∷ replaced (codes "/usr/init") (codes "/init" ∷ []) env
            ∷ [])
        × Cleared disk.env env)
switch_root-replaced_example =
    switch_root-replaced host (codes "./edgi/data") [] 0o755 disk refl (λ v. refl) init-there

abbrev kernel : Kernel
kernel = record {
  mkdev = λ major minor. major * 256 + minor;
  read_dir = λ path w. (ok (codes "usb1" ∷ []), w);
  glob = λ pattern w. (err (errno 2), w);
}

rc-completes_example : rc kernel disk ≡ (ok tt, foldl (λ v step. (step v).1) disk (steps kernel))
rc-completes_example = rc-completes kernel disk

address-there :
    disk.files (codes "/sys/class/net/eth0/address") ≡ some (file 0o444 (codes "02:42\n"))
unfolding bytes_discrete
address-there = refl

address-ne : trim_space (codes "02:42\n") ≢ []
unfolding trim_space
address-ne e = cc

do_hostname-Named_example : Named (do_hostname disk).1
do_hostname-Named_example =
    do_hostname-Named disk 0o444 (codes "02:42\n") refl address-there address-ne

-- A copying library for single files and links.
abbrev pub copy_node : Bytes → Bytes → M (Unit {0})
copy_node a b w = (ok tt, record w { files = update w.files b (w.files a) })

abbrev pub mount_nothing : Bytes → Bytes → Bytes → Bytes → M (Unit {0})
mount_nothing source target fstype options w = (ok tt, w)

copy_node-kept :
    (a b q : Bytes) (w : World) → is_within b q ≡ false → (copy_node a b w).1.files q ≡ w.files q
unfolding bytes_discrete
copy_node-kept a b q w n = ground arith

abbrev version : Places
version = record {
  source = codes "/media/k3s/v2";
  target = codes "/edgi/system/k3s/v2";
  previous = codes "/edgi/system/k3s/previous";
  current = codes "/edgi/system/k3s/current";
}

temp-apart : has_prefix (current_temp version) (temp_place version) ≡ false
unfolding has_prefix split_path join_path
temp-apart = refl

copy_version-current_example :
    let (r, w') = copy_version copy_node mount_nothing version 0o755 disk in
    w'.files (codes "/edgi/system/k3s/current")
    ≡ some (link (chosen (codes "v1") (base version.target) r))
unfolding has_prefix bytes_discrete
copy_version-current_example =
    copy_version-current copy_node mount_nothing copy_node-kept version 0o755 (codes "v1") disk refl
      refl temp-apart refl

abbrev pub all_options : Options
all_options = record {
  edgi = true;
  k3s = true;
  kernel = false;
  rootfs = true;
  remount = true;
  sync = true;
  reboot = true;
  source = codes "/media";
  destination = codes "/edgi/system";
  lock_file = codes "/run/lock";
}

abbrev pub held : Bytes → M (Unit {0})
held p w = (err (errno 11), w)

lock-elsewhere :
    follow max_links disk.files all_options.lock_file ≢ some (codes "/edgi/system/k3s/current")
unfolding follow bytes_discrete
lock-elsewhere e = cc

upgrade-locked_example :
    let (r, w') =
      upgrade copy_node mount_nothing held held (λ name w. (ok name, w)) all_options disk in
    ((x : Error) × (r ≡ err x))
    × (w'.files (codes "/edgi/system/k3s/current") ≡ disk.files (codes "/edgi/system/k3s/current"))
    × (w'.trace ≡ disk.trace)
upgrade-locked_example =
    upgrade-locked copy_node mount_nothing held held (λ name w. (ok name, w)) (errno 11) all_options
      disk (λ v. refl) (codes "/edgi/system/k3s/current") lock-elsewhere
