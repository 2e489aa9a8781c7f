-- ===== src/Config/Types.antt =====
-- pkg/config/config.go: the configuration. A map of strings is its entries in the order in which
-- Go's `range` visits them, an order that is not fixed; a key stands in it once.
use edgi_os.Base.{
  Bytes, codes, ℕ, ◌-◌, ◌^◌, ◌%◌, Bool, List, Option, none, some, is_empty, if◌then◌else◌,
}
use edgi_os.Base.Strings.{Signed, plus, minus, parse_int}
use edgi_os.Os.World.{message, Result, ok, err}

abbrev pub Entries : Type 0
Entries = List (Bytes × Bytes)

pub record Wifi : Type 0 where
  pub name : Bytes
  pub passphrase : Bytes

pub record Install : Type 0 where
  pub force_efi : Bool
  pub device : Bytes
  pub config_url : Bytes
  pub silent : Bool
  pub iso_url : Bytes
  pub power_off : Bool
  pub no_format : Bool
  pub debug : Bool
  pub tty : Bytes

pub record Edgi : Type 0 where
  pub data_sources : List Bytes
  pub modules : List Bytes
  pub sysctls : Entries
  pub ntp_servers : List Bytes
  pub dns_nameservers : List Bytes
  pub wifi : List Wifi
  pub password : Bytes
  pub server_url : Bytes
  pub token : Bytes
  pub labels : Entries
  pub k3s_args : List Bytes
  pub environment : Entries
  pub taints : List Bytes
  pub install : Option Install

pub record File : Type 0 where
  pub encoding : Bytes
  pub content : Bytes
  pub owner : Bytes
  pub path : Bytes
  pub raw_file_permissions : Bytes

pub record CloudConfig : Type 0 where
  pub ssh_authorized_keys : List Bytes
  pub write_files : List File
  pub hostname : Bytes
  pub edgi : Edgi
  pub runcmd : List Bytes
  pub bootcmd : List Bytes
  pub initcmd : List Bytes

-- os.FileMode(perm): the signed number as an unsigned one of 32 bits
abbrev pub file_mode : Option Signed → Result ℕ
file_mode (some (plus n)) = ok n
file_mode (some (minus n)) = ok ((2 ^ 32 - n) % 2 ^ 32)
file_mode none = err (message (codes "unable to parse file permissions as integer"))

unfoldable pub permissions : File → Result ℕ
permissions f =
    if is_empty f.raw_file_permissions
    then ok 0o644
    else file_mode (parse_int f.raw_file_permissions 8 32)
