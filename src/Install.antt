-- ===== src/Install.antt =====
-- pkg/cliinstall/install.go: the run of the installer.
pub mod Laws
use edgi_os.Base.{
  Bytes, codes, ℕ, Bool, true, false, List, [], ◌∷◌, ◌++◌, Option, none, some, is_empty,
  if◌then◌else◌,
}
use edgi_os.Os.World.{
  Error, Result, ok, err, M, pure, raise, lift, attempt, defer, when, ◌>>=◌, ◌>>◌,
}
use edgi_os.Os.Files.{create, write_open, close}
use edgi_os.Os.Tree.{temp_file, remove}
use edgi_os.Os.Process.{run, print}
use edgi_os.Config.Readers.{system_config, local_config}
use edgi_os.Config.Types.{CloudConfig, Edgi, Install}
use edgi_os.Config.Write.{Encoder, without_install, print_install, to_bytes, to_env}
use edgi_os.Questions.{prompt_bool}
use edgi_os.Ask.{install_of, set_install}
use edgi_os.Ask.Flow.{ask}

-- runCCApply, for the program's own name
unfoldable pub run_cc_apply : Bytes → M (Unit {0})
run_cc_apply program = do run program (codes "config" ∷ codes "--install" ∷ []) [] []; pure tt

abbrev pub installer : Bytes
installer = codes "/usr/libexec/edgi/install"

-- The command that installs, with the variables added to the environment.
abbrev pub call_installer : List Bytes → M (Unit {0})
call_installer env = do run installer [] [] env; pure tt

abbrev pub confirm_text : Bytes → Bytes
confirm_text install_bytes =
    codes "\nConfiguration\n-------------\n\n"
    ++ (install_bytes
        ++ codes
            "\nYour disk will be formatted and EDGI will be installed with the above configuration.\nContinue?")

-- Whether to go on; nobody is asked for a silent installation.
abbrev pub confirm : Install → Bytes → M Bool
confirm i install_bytes =
    if i.silent then pure true else prompt_bool (confirm_text install_bytes) false

abbrev pub set_url : CloudConfig → Install → Bytes → CloudConfig
set_url cfg i url = set_install cfg (record i { config_url = url })

-- A deferred close of a file that is closed on the way: only an error before that finds it open.
abbrev pub close_after {ℓ} : {A : Type ℓ} → Bytes → Result A → M A
close_after path (ok a) = pure a
close_after path (err e) = do attempt (close path); raise e

abbrev pub closing {ℓ} : {A : Type ℓ} → Bytes → M A → M A
closing path m = do r ← attempt m; close_after path r

module _ (enc : Encoder) where
  -- From the temporary file on, which the configuration is written to.
  unfoldable pub install_from : Bytes → CloudConfig → M (Unit {0})
  unfolding to_env
  install_from temp cfg = do
    env ← closing temp (do
      env ← to_env enc cfg
      bytes ← lift (enc.marshal_config (without_install cfg))
      write_open temp bytes
      pure env)
    close temp
    defer (remove temp) (call_installer env)

  -- What follows the confirmation.
  unfoldable pub install : CloudConfig → Install → M (Unit {0})
  unfolding install_from
  install cfg i =
      if is_empty i.config_url
      then (do
        temp ← temp_file (codes "/tmp/edgi.XXXXXXXX")
        install_from temp (set_url cfg i temp))
      else (do env ← to_env enc cfg; call_installer env)

  unfoldable pub run_install : CloudConfig → M (Unit {0})
  unfolding print_install install
  run_install cfg = do
    install_bytes ← print_install enc cfg
    i ← install_of cfg
    go ← confirm i install_bytes
    when go (install cfg i)

  -- os.Create of the first file that can be made
  abbrev pub local_from : Result (Unit {0}) → M Bytes
  local_from (ok _) = pure system_config
  local_from (err e) = do create local_config; pure local_config

  unfoldable pub write_configuration : CloudConfig → M (Unit {0})
  unfolding to_bytes
  write_configuration cfg = do
    bytes ← to_bytes enc cfg
    created ← attempt (create system_config)
    path ← local_from created
    defer (close path) (write_open path bytes)

  unfoldable pub run_installer : ℕ → Bytes → M CloudConfig → M (Unit {0})
  unfolding run_install write_configuration run_cc_apply
  run_installer uid program read_config = do
    print (codes "\nRunning EDGI configuration\n")
    cfg ← read_config
    (is_install, filled) ← ask uid cfg
    if is_install then run_install filled else (do write_configuration filled; run_cc_apply program)
