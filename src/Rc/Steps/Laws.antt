-- ===== src/Rc/Steps/Laws.antt =====
-- What the steps of a boot come to.
use mathlib.Core.List.{foldl}
use edgi_os.Base.{Bytes, List, [], ◌∷◌, ◌≡◌, ap}
use edgi_os.Os.World.{World, Result, ok, err, M, ◌>>=◌}
use edgi_os.Os.Completes.{Completes, completes_rules}
use edgi_os.Rc.Calls.{Kernel}
use edgi_os.Rc.Calls.Laws.{call_rules}
use edgi_os.Rc.Mounts.{
  mount_tmpfs, make_var, make_devices, mount_devices, mount_sys, mount_cgroups, mount_cgroup,
  do_mounts,
}
use edgi_os.Rc.Steps.{
  rc, do_hotplug, add_usb, do_clock, do_loopback, do_hostname, do_resolv_conf, name_from,
  empty_target,
}

mount_tmpfs-Completes : Completes mount_tmpfs
unfolding mount_tmpfs
mount_tmpfs-Completes = search (completes_rules, call_rules) depth 30 fits 5000

make_var-Completes : Completes make_var
unfolding make_var
make_var-Completes = search (completes_rules, call_rules) depth 30 fits 5000

make_devices-Completes : (kernel : Kernel) → Completes (make_devices kernel)
unfolding make_devices
make_devices-Completes kernel = search (completes_rules, call_rules) depth 30 fits 5000

mount_devices-Completes : Completes mount_devices
unfolding mount_devices
mount_devices-Completes = search (completes_rules, call_rules) depth 30 fits 5000

mount_sys-Completes : Completes mount_sys
unfolding mount_sys
mount_sys-Completes = search (completes_rules, call_rules) depth 30 fits 5000

mount_cgroup-Completes : (cg : Bytes) → Completes (mount_cgroup cg)
unfolding mount_cgroup
mount_cgroup-Completes cg = search (completes_rules, call_rules) depth 30 fits 5000

mount_cgroups-Completes : Completes mount_cgroups
unfolding mount_cgroups
mount_cgroups-Completes =
    search (completes_rules, call_rules, mount_cgroup-Completes) depth 30 fits 5000

do_mounts-Completes : (kernel : Kernel) → Completes (do_mounts kernel)
unfolding do_mounts
do_mounts-Completes kernel =
    search
      (
        completes_rules, call_rules, mount_tmpfs-Completes, make_var-Completes,
        make_devices-Completes, mount_devices-Completes, mount_sys-Completes,
        mount_cgroups-Completes,
      )
      depth 30 fits 5000

add_usb-Completes : (f : Bytes) → Completes (add_usb f)
unfolding add_usb
add_usb-Completes f = search (completes_rules, call_rules) depth 30 fits 5000

do_hotplug-Completes : (kernel : Kernel) → Completes (do_hotplug kernel)
unfolding do_hotplug
do_hotplug-Completes kernel =
    search (completes_rules, call_rules, add_usb-Completes) depth 30 fits 5000

empty_target-Completes : (r : Result Bytes) → Completes (empty_target r)
empty_target-Completes (ok link) = search (completes_rules, call_rules) depth 30 fits 5000
empty_target-Completes (err e) = search completes_rules

do_resolv_conf-Completes : Completes do_resolv_conf
unfolding do_resolv_conf
do_resolv_conf-Completes = search (completes_rules, empty_target-Completes)

do_clock-Completes : Completes do_clock
unfolding do_clock
do_clock-Completes = search completes_rules

do_loopback-Completes : Completes do_loopback
unfolding do_loopback
do_loopback-Completes = search completes_rules

name_from-Completes : (r : Result Bytes) → Completes (name_from r)
name_from-Completes (ok hostname) = search (completes_rules, call_rules) depth 30 fits 5000
name_from-Completes (err e) = search completes_rules

do_hostname-Completes : Completes do_hostname
unfolding do_hostname
do_hostname-Completes = search (completes_rules, call_rules, name_from-Completes) depth 30 fits 5000

-- The steps of the boot in their order.
pub steps : Kernel → List (M (Unit {0}))
steps kernel =
    do_mounts kernel
    ∷ do_hotplug kernel
    ∷ do_clock
    ∷ do_loopback
    ∷ do_hostname
    ∷ do_resolv_conf
    ∷ []

-- From every state, whatever calls fail, and whatever the kernel answers for its directories, patterns
-- and device numbers: the command returns, and what it leaves is what the mounts, the hotplugging, the
-- clock, the loopback device, the host name and the file of the name servers leave, each run on what
-- the one before it left.
pub rc-completes :
    (kernel : Kernel) (w : World)
    → rc kernel w ≡ (ok tt, foldl (λ v step. (step v).1) w (steps kernel))
unfolding rc steps ◌>>=◌
rc-completes kernel w =
    let (a, mounts) = (do_mounts-Completes kernel).at w in
    let v = (do_mounts kernel w).1 in
    let (b, hotplug) = (do_hotplug-Completes kernel).at v in
    let u = (do_hotplug kernel v).1 in
    let (c, clock) = do_clock-Completes.at u in
    let t = (do_clock u).1 in
    let (d, loopback) = do_loopback-Completes.at t in
    let s = (do_loopback t).1 in
    let (e, named) = do_hostname-Completes.at s in
    let (f, servers) = do_resolv_conf-Completes.at (do_hostname s).1 in
    rw mounts (
      rw hotplug (
        rw clock
          (rw loopback (rw named (ap (λ r. (r, (do_resolv_conf (do_hostname s).1).1)) servers)))))
