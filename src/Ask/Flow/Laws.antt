-- ===== src/Ask/Flow/Laws.antt =====
-- An installation that needs no answer.
use edgi_os.Base.{ℕ, [], some, ◌≡◌, ◌≢◌, arith}
use edgi_os.Os.World.{ok, World, ◌>>=◌}
use edgi_os.Config.Types.{CloudConfig, Install}
use edgi_os.Ask.{ask_install_device, ask_config_url}
use edgi_os.Ask.Flow.{ask_install}

-- With a device and the place of a configuration, an installation asks nothing, runs nothing and
-- changes nothing, whether or not it is silent: the configuration is as it was.
pub ask_install-preset :
    (uid : ℕ) (cfg : CloudConfig) (i : Install) (w : World)
    → cfg.edgi.install ≡ some i
    → i.device ≢ []
    → i.config_url ≢ []
    → ask_install uid cfg w ≡ (ok cfg, w)
unfolding ask_install ask_install_device ask_config_url ◌>>=◌
ask_install-preset uid cfg i w e d u = ground arith
