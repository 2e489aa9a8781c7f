-- ===== src/Rc/Steps.antt =====
-- The steps of pkg/cli/rc/rc.go after the mounts, and the command.
pub mod Laws
pub mod Name
use edgi_os.Base.{
  Bytes, codes, Bool, true, false, List, [], ◌∷◌, ◌++◌, has_prefix, same, is_empty, ◌||◌, ◌==◌, not,
  if◌then◌else◌,
}
use mathlib.Core.List.{filter}
use edgi_os.Base.Paths.{path_join, dir}
use edgi_os.Os.World.{
  message, Result, ok, err, M, pure, raise, attempt, log, when, for_each, ◌>>=◌, ◌>>◌,
}
use edgi_os.Os.Logged.{logged, ignored}
use edgi_os.Os.Files.{readlink}
use edgi_os.Os.Process.{run, sethostname, gethostname}
use edgi_os.Rc.Calls
use edgi_os.Rc.Calls.{Kernel, mkdir, write, read, exists, readdir, modalias}
use edgi_os.Rc.Mounts.{do_mounts}

abbrev pub mdev : Bytes
mdev = codes "/usr/sbin/mdev"

abbrev pub uevent_path : Bytes → Bytes
uevent_path f = path_join (codes "/sys/devices" ∷ f ∷ codes "uevent" ∷ [])

-- The body of the loop over the devices.
unfoldable pub add_usb : Bytes → M (Unit {0})
unfolding exists write
add_usb f =
    if has_prefix f (codes "usb")
    then (do there ← exists (uevent_path f); when there (write (uevent_path f) (codes "add")))
    else pure tt

unfoldable pub do_hotplug : Kernel → M (Unit {0})
unfolding add_usb
do_hotplug kernel = do
  write (codes "/proc/sys/kernel/hotplug") mdev
  files ← readdir kernel (codes "/sys/devices")
  for_each files add_usb
  logged (run mdev (codes "-s" ∷ []) [] [])
  aliases ← Calls.glob kernel (codes "/sys/bus/*/devices/*/modalias")
  for_each aliases modalias

unfoldable pub do_clock : M (Unit {0})
do_clock = logged (run (codes "/sbin/hwclock") (codes "--hctosys" ∷ codes "--utc" ∷ []) [] [])

abbrev pub empty_target : Result Bytes → M (Unit {0})
empty_target (err e) = pure tt
empty_target (ok link) = do mkdir (dir link) 0o755; write link []

unfoldable pub do_resolv_conf : M (Unit {0})
unfolding mkdir write
do_resolv_conf = do link ← attempt (readlink (codes "/etc/resolv.conf")); empty_target link

abbrev pub ip : List Bytes → M (Unit {0})
ip args = ignored (run (codes "/sbin/ip") args [] [])

unfoldable pub do_loopback : M (Unit {0})
do_loopback = do
  ip (
      codes "addr"
      ∷ codes "add"
      ∷ codes "127.0.0.1/8"
      ∷ codes "dev"
      ∷ codes "lo"
      ∷ codes "brd"
      ∷ codes "+"
      ∷ codes "scope"
      ∷ codes "host"
      ∷ [])
  ip (
      codes "route"
      ∷ codes "add"
      ∷ codes "127.0.0.0/8"
      ∷ codes "dev"
      ∷ codes "lo"
      ∷ codes "scope"
      ∷ codes "host"
      ∷ [])
  ip (codes "link" ∷ codes "set" ∷ codes "lo" ∷ codes "up" ∷ [])

-- strings.Replace of every colon by nothing
unfoldable pub drop_colons : Bytes → Bytes
drop_colons [] = []
drop_colons (c ∷ s) = let rest = drop_colons s in if c == b':' then rest else c ∷ rest

abbrev pub name_by_address : Bytes → M (Unit {0})
name_by_address mac =
    if is_empty mac then pure tt else logged (sethostname (codes "edgi-" ++ drop_colons mac))

-- What follows the answer of os.Hostname.
abbrev pub name_from : Result Bytes → M (Unit {0})
name_from (err e) = log (codes "Cannot read hostname")
name_from (ok hostname) =
    if same hostname (codes "(none)") || is_empty hostname
    then (do mac ← read (codes "/sys/class/net/eth0/address"); name_by_address mac)
    else pure tt

unfoldable pub do_hostname : M (Unit {0})
unfolding drop_colons read
do_hostname = do
  hostname ← read (codes "/etc/hostname")
  if is_empty hostname then pure tt else logged (sethostname hostname)
  actual ← attempt gethostname
  name_from actual

-- Action of the command
unfoldable pub rc : Kernel → M (Unit {0})
unfolding do_mounts do_hotplug do_clock do_loopback do_hostname do_resolv_conf
rc kernel = do
  do_mounts kernel
  do_hotplug kernel
  do_clock
  do_loopback
  do_hostname
  do_resolv_conf
