-- ===== src/Cc/Network.antt =====
-- ApplyDNS, ApplyWifi and ApplyDataSource of pkg/cc/funcs.go.
use edgi_os.Base.{Bytes, codes, ℕ, ◌+◌, List, [], ◌∷◌, ◌++◌}
use edgi_os.Base.Strings.{join, itoa}
use edgi_os.Os.World.{wrapped, Result, ok, err, M, pure, raise, attempt, ◌>>=◌, ◌>>◌}
use edgi_os.Os.Files.{write_file}
use edgi_os.Os.Tree.{mkdir_all}
use edgi_os.Config.Types.{CloudConfig, Wifi}

abbrev pub wrap_write : Bytes → Result (Unit {0}) → M (Unit {0})
wrap_write text (ok _) = pure tt
wrap_write text (err e) = raise (wrapped text e)

abbrev pub nameserver_line : List Bytes → Bytes
nameserver_line [] = codes "FallbackNameservers=8.8.8.8\n"
nameserver_line (s ∷ ss) = codes "FallbackNameservers=" ++ (join (s ∷ ss) (codes ",") ++ codes "\n")

abbrev pub timeserver_line : List Bytes → Bytes
timeserver_line [] = []
timeserver_line (s ∷ ss) = codes "FallbackTimeservers=" ++ (join (s ∷ ss) (codes ",") ++ codes "\n")

unfoldable pub dns_content : CloudConfig → Bytes
unfolding join
dns_content cfg =
    codes "[General]\nNetworkInterfaceBlacklist=veth\nPreferredTechnologies=ethernet,wifi\n"
    ++ (nameserver_line cfg.edgi.dns_nameservers ++ timeserver_line cfg.edgi.ntp_servers)

unfoldable pub apply_dns : CloudConfig → M (Unit {0})
unfolding dns_content
apply_dns cfg = do
  r ← attempt (write_file (codes "/etc/connman/main.conf") (dns_content cfg) 0o644)
  wrap_write (codes "failed to write /etc/connman/main.conf") r

-- The section of a network, numbered by its place in the list.
abbrev pub wifi_section : ℕ → Wifi → Bytes
wifi_section i w =
    codes "[service_wifi"
    ++ (itoa i
        ++ (codes "]\nType=wifi\nPassphrase="
            ++ (w.passphrase ++ (codes "\nName=" ++ (w.name ++ codes "\n")))))

unfoldable pub wifi_sections : ℕ → List Wifi → Bytes
wifi_sections i [] = []
wifi_sections i (w ∷ ws) = wifi_section i w ++ wifi_sections (i + 1) ws

unfoldable pub wifi_content : List Wifi → Bytes
unfolding wifi_sections
wifi_content ws =
    codes "[global]\nName=cloud-config\nDescription=Services defined in the cloud-config\n"
    ++ wifi_sections 0 ws

unfoldable pub write_wifi : List Wifi → M (Unit {0})
unfolding wifi_content
write_wifi [] = pure tt
write_wifi (w ∷ ws) = do
  made ← attempt (mkdir_all (codes "/var/lib/connman") 0o755)
  wrap_write (codes "failed to mkdir /var/lib/connman") made
  settings ← attempt (
      write_file (codes "/var/lib/connman/settings")
        (codes "[WiFi]\nEnable=true\nTethering=false\n") 0o644)
  wrap_write (codes "failed to write to /var/lib/connman/settings") settings
  write_file (codes "/var/lib/connman/cloud-config.config") (wifi_content (w ∷ ws)) 0o644

unfoldable pub apply_wifi : CloudConfig → M (Unit {0})
unfolding write_wifi
apply_wifi cfg = write_wifi cfg.edgi.wifi

unfoldable pub write_data_sources : List Bytes → M (Unit {0})
unfolding join
write_data_sources [] = pure tt
write_data_sources (d ∷ ds) = do
  r ← attempt (
      write_file (codes "/etc/conf.d/cloud-config")
        (codes "command_args=\"" ++ (join (d ∷ ds) (codes " ") ++ codes "\"\n")) 0o644)
  wrap_write (codes "failed to write to /etc/conf.d/cloud-config") r

unfoldable pub apply_data_source : CloudConfig → M (Unit {0})
unfolding write_data_sources
apply_data_source cfg = write_data_sources cfg.edgi.data_sources
