-- ===== src/Rc/Calls/Laws.antt =====
-- The calls return, whatever fails.
use edgi_os.Base.{Bytes, ℕ, List, Option, none, some}
use edgi_os.Os.World.{not_exist, errno, eof, message, wrapped, Result, ok, err}
use edgi_os.Os.Completes.{Completes, completes_rules}
use edgi_os.Rc.Calls

pub mkdir-Completes : (path : Bytes) (perm : ℕ) → Completes (Calls.mkdir path perm)
unfolding Calls.mkdir
mkdir-Completes path perm = search completes_rules

pub mount-Completes :
    (source target fstype : Bytes) (flags : ℕ) (options : Bytes)
    → Completes (Calls.mount source target fstype flags options)
unfolding Calls.mount
mount-Completes source target fstype flags options = search completes_rules

pub mount_silent-Completes :
    (source target fstype : Bytes) (flags : ℕ) (options : Bytes)
    → Completes (Calls.mount_silent source target fstype flags options)
unfolding Calls.mount_silent
mount_silent-Completes source target fstype flags options = search completes_rules

pub symlink-Completes : (old new : Bytes) → Completes (Calls.symlink old new)
unfolding Calls.symlink
symlink-Completes old new = search completes_rules

pub write-Completes : (path value : Bytes) → Completes (Calls.write path value)
unfolding Calls.write
write-Completes path value = search completes_rules

pub read-Completes : (path : Bytes) → Completes (Calls.read path)
unfolding Calls.read
read-Completes path = search completes_rules

pub exists-Completes : (path : Bytes) → Completes (Calls.exists path)
unfolding Calls.exists
exists-Completes path = search completes_rules

pub modalias-Completes : (path : Bytes) → Completes (Calls.modalias path)
unfolding Calls.modalias
modalias-Completes path = search completes_rules

cgroups_from-Completes : (rs : Option (List (Bytes × Bytes))) → Completes (Calls.cgroups_from rs)
cgroups_from-Completes none = search completes_rules
cgroups_from-Completes (some rs) = search completes_rules

cgroups_in-Completes : (r : Result Bytes) → Completes (Calls.cgroups_in r)
cgroups_in-Completes (ok s) = cgroups_from-Completes _
cgroups_in-Completes (err e) = search completes_rules

pub cgroup_list-Completes : Completes Calls.cgroup_list
unfolding Calls.cgroup_list
cgroup_list-Completes = search (completes_rules, cgroups_in-Completes)

names_or_none-Completes : (r : Result (List Bytes)) → Completes (Calls.names_or_none r)
names_or_none-Completes (ok names) = search completes_rules
names_or_none-Completes (err e) = search completes_rules

log_unless_there-Completes : (r : Result (Unit {0})) → Completes (Calls.log_unless_there r)
log_unless_there-Completes (ok a) = search completes_rules
log_unless_there-Completes (err (errno n)) = search completes_rules
log_unless_there-Completes (err not_exist) = search completes_rules
log_unless_there-Completes (err eof) = search completes_rules
log_unless_there-Completes (err (message s)) = search completes_rules
log_unless_there-Completes (err (wrapped s e)) = search completes_rules

module _ (kernel : Calls.Kernel) where
  pub mkchar-Completes :
      (path : Bytes) (mode major minor : ℕ) → Completes (Calls.mkchar kernel path mode major minor)
  unfolding Calls.mkchar
  mkchar-Completes path mode major minor = search (completes_rules, log_unless_there-Completes)

  pub readdir-Completes : (path : Bytes) → Completes (Calls.readdir kernel path)
  unfolding Calls.readdir
  readdir-Completes path = search (completes_rules, names_or_none-Completes)

  pub glob-Completes : (pattern : Bytes) → Completes (Calls.glob kernel pattern)
  unfolding Calls.glob
  glob-Completes pattern = search (completes_rules, names_or_none-Completes)

pub ruleset call_rules = (
  mkdir-Completes, mount-Completes, mount_silent-Completes, symlink-Completes, write-Completes,
  read-Completes, exists-Completes, modalias-Completes, cgroup_list-Completes, mkchar-Completes,
  readdir-Completes, glob-Completes,
)
