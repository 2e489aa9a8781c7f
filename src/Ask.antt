-- ===== src/Ask.antt =====
-- pkg/cliinstall/ask.go: the questions of the installer. A function that fills in the configuration
-- returns it; on an error the callers drop it.
pub mod Login
pub mod Fuel
pub mod Flow
use mathlib.Core.List.{flat_map}
use edgi_os.Base.{
  Bytes, codes, ℕ, zero, suc, ◌==◌, Bool, true, false, not, ◌&&◌, ◌||◌, List, [], ◌∷◌, ◌++◌, map,
  Option, none, some, is_empty, same, get_elem?, length, if◌then◌else◌,
}
use edgi_os.Base.Strings.{plus, minus, split, trim_space, fields, scan_lines}
use edgi_os.Os.World.{
  Error, eof, message, Result, ok, err, World, M, pure, raise, gets, attempt, defer, ◌>>=◌, ◌>>◌,
}
use edgi_os.Os.Files.{read_file, write_file}
use edgi_os.Os.Process.{run, print}
use edgi_os.Config.Types.{CloudConfig, Edgi, Install, Wifi}
use edgi_os.System.{mode}
use edgi_os.Questions.{prompt, prompt_optional, prompt_bool, prompt_formatted_options}
use edgi_os.Util.Password.{Prompted, typed, failed, prompt_password}

-- The pointer cfg.EDGI.Install, followed.
abbrev pub install_of : CloudConfig → M Install
install_of cfg = elim cfg.edgi.install [
  | none ↦ raise (message (codes "invalid memory address or nil pointer dereference"))
  | some i ↦ pure i
]

abbrev pub set_edgi : CloudConfig → Edgi → CloudConfig
set_edgi cfg e = record cfg { edgi = e }

abbrev pub set_install : CloudConfig → Install → CloudConfig
set_install cfg i = set_edgi cfg (record cfg.edgi { install = some i })

abbrev pub is_live : Bytes → Bool
is_live m = same m (codes "live-server") || same m (codes "live-agent")

unfoldable pub is_install : M Bool
is_install = do
  m ← mode []
  if same m (codes "install") then pure true else if is_live m then pure false else do
    i ←
        prompt_formatted_options (codes "Choose operation") (plus 0)
          (codes "Install to disk" ∷ codes "Configure server or agent" ∷ [])
    pure (i == 0)

-- fields[i]
abbrev pub device_at : List Bytes → ℕ → M Bytes
device_at names i = elim (get_elem? names i) [
  | none ↦ raise (message (codes "index out of range"))
  | some name ↦ pure (codes "/dev/" ++ name)
]

unfoldable pub ask_install_device : CloudConfig → M CloudConfig
ask_install_device cfg = do
  i ← install_of cfg
  if not (is_empty i.device) then pure cfg else do
    output ←
        run (codes "/bin/sh")
          (codes "-c" ∷ codes "lsblk -r -o NAME,TYPE | grep -w disk | awk '{print $1}'" ∷ []) [] []
    n ←
        prompt_formatted_options (codes "Installation target. Device will be formatted") (minus 1)
          (fields output)
    name ← device_at (fields output) n
    pure (set_install cfg (record i { device = name }))

abbrev pub token_prompt : Bool → M Bytes
token_prompt true = prompt_optional (codes "Token or cluster secret (optional): ") []
token_prompt false = prompt (codes "Token or cluster secret: ") []

unfoldable pub ask_token : CloudConfig → Bool → M CloudConfig
ask_token cfg server =
    if not (is_empty cfg.edgi.token)
    then pure cfg
    else do token ← token_prompt server; pure (set_edgi cfg (record cfg.edgi { token = token }))

unfoldable pub is_server : CloudConfig → M Bool
is_server cfg = do
  m ← mode []
  if same m (codes "live-server")
      then pure true
      else if same m (codes "live-agent")
          || (not (is_empty cfg.edgi.server_url) && not (is_empty cfg.edgi.token))
      then pure false
      else do
        i ←
            prompt_formatted_options (codes "Run as server or agent?") (plus 0)
              (codes "server" ∷ codes "agent" ∷ [])
        pure (i == 0)

unfoldable pub ask_server_agent : CloudConfig → M CloudConfig
unfolding is_server ask_token
ask_server_agent cfg = if not (is_empty cfg.edgi.server_url) then pure cfg else do
  server ← is_server cfg
  if server then ask_token cfg true else do
    url ← prompt (codes "URL of server: ") []
    ask_token (set_edgi cfg (record cfg.edgi { server_url = url })) false

abbrev pub add_wifi : CloudConfig → Bytes → Bytes → CloudConfig
add_wifi cfg name pass =
    set_edgi cfg
      (record cfg.edgi { wifi = cfg.edgi.wifi ++ record { name = name; passphrase = pass } ∷ [] })

-- A round takes three lines at least.
unfoldable pub wifi_from : ℕ → CloudConfig → M CloudConfig
wifi_from zero cfg = raise eof
wifi_from (suc n) cfg =
    let again = wifi_from n in
    do
      name ← prompt (codes "WiFi Name: ") []
      pass ← prompt (codes "WiFi Passphrase: ") []
      more ← prompt_bool (codes "Configure another WiFi network?") false
      if more then again (add_wifi cfg name pass) else pure (add_wifi cfg name pass)

unfoldable pub ask_wifi : CloudConfig → M CloudConfig
unfolding wifi_from
ask_wifi cfg = elim cfg.edgi.wifi [
  | [] ↦ (do
    wanted ← prompt_bool (codes "Configure WiFi?") false
    n ← gets (λ w. suc (length w.input))
    if wanted then wifi_from n cfg else pure cfg)
  | w ∷ ws ↦ pure cfg
]

-- Whether keys or a password are there already.
abbrev pub has_login : CloudConfig → Bool
has_login cfg = elim cfg.ssh_authorized_keys [
  | [] ↦ not (is_empty cfg.edgi.password)
  | k ∷ ks ↦ true
]

unfoldable pub ask_github : CloudConfig → M CloudConfig
ask_github cfg = if has_login cfg then pure cfg else do
  wanted ← prompt_bool (codes "Authorize GitHub users to SSH?") false
  if not wanted then pure cfg else do
    names ← prompt (codes "Comma separated list of GitHub users to authorize: ") []
    pure (record cfg {
      ssh_authorized_keys = map (λ s. codes "github:" ++ trim_space s) (split names b',');
    })

unfoldable pub ask_config_url : CloudConfig → M CloudConfig
ask_config_url cfg = do
  i ← install_of cfg
  if not (is_empty i.config_url) then pure cfg else do
    wanted ← prompt_bool (codes "Config system with cloud-init file?") false
    if not wanted then pure cfg else do
      url ← prompt (codes "cloud-init file location (file path or http URL): ") []
      pure (set_install cfg (record i { config_url = url }))
