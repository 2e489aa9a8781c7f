-- ===== src/Examples/Setup.antt =====
-- An installation that asks nothing, the loop over the networks, and the kernel's command line.
use edgi_os.Base.{codes, [], ◌∷◌, none, some, true, false, ◌≡◌, refl, arith, bytes_discrete}
use edgi_os.Os.World.{ok, World, file, ran}
use edgi_os.Os.Files.{update}
use edgi_os.Os.Tree.{fresh_suffix}
use edgi_os.Config.Types.{Install}
use edgi_os.Config.Values.{no_field, field, text}
use edgi_os.Config.Env.{map_to_env}
use edgi_os.Config.Write.{Encoder}
use edgi_os.Install.{run_install, installer}
use edgi_os.Install.Laws.{run_install-silent}
use edgi_os.Ask.{set_install, wifi_from}
use edgi_os.Ask.Fuel.{wifi_from-enough}
use edgi_os.Config.Cmdline.{items}
use edgi_os.Config.Cmdline.Laws.{visible, all_visible, items-visible}
use edgi_os.Examples.{machine, config}

abbrev silent : Install
silent = record {
  force_efi = false;
  device = codes "/dev/sda";
  config_url = [];
  silent = true;
  iso_url = [];
  power_off = false;
  no_format = false;
  debug = false;
  tty = [];
}

abbrev encoder : Encoder
encoder = record {
  encode_install = λ i. ok no_field;
  encode = λ c. ok (field (codes "hostname") (text c.hostname) no_field);
  to_yaml_key = λ k. k;
  marshal = λ fs. ok (codes "device: /dev/sda\n");
  marshal_config = λ c. ok (codes "hostname: node\n");
}

abbrev ready : World
ready = record machine {
  outcomes = record { failure = none; output = []; effect = λ files. files } ∷ [];
}

suffix-free :
    fresh_suffix ready.files (codes "/tmp/edgi.XXXXXXXX") ready.random ≡ some (codes "7", [])
unfolding fresh_suffix bytes_discrete
suffix-free = refl

run_install-silent_example :
    let (result, w') = run_install encoder (set_install config silent) ready in
    (result ≡ ok tt)
    × (w'.trace
        ≡ ran installer [] [] (
            map_to_env encoder.to_yaml_key []
              (field (codes "hostname") (text (codes "node")) no_field))
          ∷ [])
    × (w'.files
        ≡ update
            (update ready.files
              (codes "/tmp/edgi.XXXXXXXX7")
              (some (file 0o600 (codes "hostname: node\n"))))
            (codes "/tmp/edgi.XXXXXXXX7")
            none)
unfolding bytes_discrete
run_install-silent_example =
    run_install-silent encoder (set_install config silent) silent no_field
      (field (codes "hostname") (text (codes "node")) no_field) (codes "device: /dev/sda\n")
      (codes "hostname: node\n") (codes "7") (codes "hostname: node\n") [] 0o600 none []
      (λ files. files) [] ready refl refl refl refl refl suffix-free refl refl refl refl refl

abbrev networked : World
networked = record machine { input = codes "home" ∷ codes "secret" ∷ codes "n" ∷ [] }

wifi_from-enough_example : wifi_from 4 config networked ≡ wifi_from 9 config networked
wifi_from-enough_example = wifi_from-enough 4 9 config networked (omega arith) (omega arith)

items-visible_example :
    all_visible (items (codes "quiet edgi.mode=\"a b\" x"))
    ≡ visible (codes "quiet edgi.mode=\"a b\" x")
items-visible_example = items-visible (codes "quiet edgi.mode=\"a b\" x")
