-- ===== src/Ask/Flow.antt =====
-- The order of the questions, in pkg/cliinstall/ask.go.
pub mod Laws
use edgi_os.Base.{ℕ, Bool, true, false, is_empty, if◌then◌else◌}
use edgi_os.Os.World.{M, pure, ◌>>=◌}
use edgi_os.Config.Types.{CloudConfig}
use edgi_os.Ask.{
  install_of, is_install, ask_install_device, ask_config_url, ask_github, ask_wifi,
  ask_server_agent,
}
use edgi_os.Ask.Login.{ask_password}

module _ (uid : ℕ) where
  unfoldable pub ask_unconfigured : CloudConfig → M CloudConfig
  unfolding ask_github ask_password ask_wifi ask_server_agent
  ask_unconfigured cfg = do
    keyed ← ask_github cfg
    secured ← ask_password uid keyed
    connected ← ask_wifi secured
    ask_server_agent connected

  unfoldable pub ask_install : CloudConfig → M CloudConfig
  unfolding ask_unconfigured ask_install_device ask_config_url
  ask_install cfg = do
    i ← install_of cfg
    if i.silent then pure cfg else do
      on_device ← ask_install_device cfg
      located ← ask_config_url on_device
      j ← install_of located
      if is_empty j.config_url then ask_unconfigured located else pure located

  -- Whether to install, and the configuration filled in.
  unfoldable pub ask : CloudConfig → M (Bool × CloudConfig)
  unfolding is_install ask_install
  ask cfg = do
    install ← is_install
    if install
        then (do filled ← ask_install cfg; pure (true, filled))
        else (do filled ← ask_server_agent cfg; pure (false, filled))
