-- ===== src/Examples.antt =====
-- A small machine to run the program on, and runs of it.
mod Storage
mod Users
mod Settings
mod Schema
mod Input
mod Boot
mod Entry
mod Setup
use edgi_os.Base.{true, Bytes, codes, ℕ, List, [], ◌∷◌, Option, none, some, same, if◌then◌else◌}
use edgi_os.Os.World.{Node, file, Files, World}
use edgi_os.Config.Types.{CloudConfig}
use edgi_os.Config.Sources.{empty_edgi}

abbrev pub standing : List (Bytes × Node) → Files
standing [] q = none
standing ((p, n) ∷ fs) q = if same p q then some n else standing fs q

-- Nothing fails on it, and it has a few files.
abbrev pub machine : World
machine = record {
  files = standing (
      (codes "/etc/hosts", file 0o644 (codes "127.0.0.1 localhost\n127.0.1.1 old\n"))
      ∷ (codes "/etc/hostname", file 0o644 (codes "old\n"))
      ∷ (codes "/etc/shadow", file 0o640 (codes "root:x:\nedgi:h:\n"))
      ∷ (codes "/home/edgi/keys", file 0o600 (codes "ssh-rsa one\n"))
      ∷ (codes "/tmp/wfs-temp1", file 0o600 [])
      ∷ []);
  faults = [];
  outcomes = [];
  responses = [];
  input = [];
  unbuffered = λ ls. ls;
  terminal = true;
  random = codes "7" ∷ [];
  mask = λ m. m;
  hostname = codes "old";
  env = λ k. [];
  trace = [];
}

abbrev pub config : CloudConfig
config = record {
  ssh_authorized_keys = [];
  write_files = [];
  hostname = codes "node";
  edgi = empty_edgi;
  runcmd = [];
  bootcmd = [];
  initcmd = [];
}
