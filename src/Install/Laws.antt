-- ===== src/Install/Laws.antt =====
-- The installation that asks nothing.
use mathlib.Core.Path.{fun_ext}
use edgi_os.Base.{
  same_refl, Bytes, codes, ℕ, true, List, [], ◌∷◌, ◌++◌, Option, none, some, ◌≡◌, refl, arith,
}
use edgi_os.Os.World.{Error, World, Result, ok, err, Outcome, Node, file, Files, ran, ◌>>=◌}
use edgi_os.Os.Files.{update, write_open, close}
use edgi_os.Os.Tree.{temp_file, remove, fresh_suffix}
use edgi_os.Os.Process.{run}
use edgi_os.Config.Types.{CloudConfig, Install}
use edgi_os.Config.Values.{Fields}
use edgi_os.Config.Env.{map_to_env, to_yaml_keys}
use edgi_os.Config.Write.{Encoder, without_install, print_install, to_env}
use edgi_os.Install.{run_install, install, install_from, set_url, installer}

abbrev pub finished : Option Error → Result (Unit {0})
finished none = ok tt
finished (some e) = err e

install_from-quiet :
    (enc : Encoder) (cfg : CloudConfig) (entries : Fields) (temp bytes s : Bytes) (m k : ℕ)
    (failure : Option Error) (output : Bytes) (effect : Files → Files) (os : List Outcome)
    (w : World) (given : Files)
    → update w.files temp (some (file m bytes)) ≡ given
    → w.faults ≡ []
    → w.outcomes ≡ record { failure = failure; output = output; effect = effect } ∷ os
    → w.files temp ≡ some (file m [])
    → enc.encode cfg ≡ ok entries
    → enc.marshal_config (without_install cfg) ≡ ok bytes
    → effect given temp ≡ some (file k s)
    → let (r, w') = install_from enc temp cfg w in
      (r ≡ finished failure)
      × (w'.trace ≡ w.trace ++ ran installer [] [] (map_to_env enc.to_yaml_key [] entries) ∷ [])
      × (w'.files ≡ update (effect given) temp none)
unfolding install_from write_open close remove run to_env ◌>>=◌
install_from-quiet enc cfg entries temp bytes s m k none output effect os w given g f oe h e c
      kept =
    rw e (rw c (rw f (rw h (rw oe (rw g (rw kept (refl, refl, refl)))))))
install_from-quiet enc cfg entries temp bytes s m k (some x) output effect os w given g f oe h e c
      kept =
    rw e (rw c (rw f (rw h (rw oe (rw g (rw kept (refl, refl, refl)))))))

update_twice :
    (files : Files) (p : Bytes) (a b : Option Node)
    → update (update files p a) p b ≡ update files p b
update_twice files p a b = fun_ext λ q. ground arith

-- The state after the temporary file is made.
abbrev drawn : World → Bytes → List Bytes → World
drawn w r rs = record w {
  faults = [];
  random = rs;
  files = update w.files (codes "/tmp/edgi.XXXXXXXX" ++ r) (some (file (w.mask 0o600) []));
}

-- Nobody is asked.
unasked-install :
    (enc : Encoder) (cfg : CloudConfig) (i : Install) (shown : Fields) (text : Bytes) (w : World)
    → cfg.edgi.install ≡ some i
    → i.silent ≡ true
    → enc.encode_install (some i) ≡ ok shown
    → enc.marshal (to_yaml_keys enc.to_yaml_key shown) ≡ ok text
    → run_install enc cfg w ≡ install enc cfg i w
unfolding run_install print_install ◌>>=◌
unasked-install enc cfg i shown text w ci si ei mi = rw ci (rw ei (rw mi (rw si refl)))

install-from :
    (enc : Encoder) (cfg : CloudConfig) (i : Install) (r : Bytes) (rs : List Bytes) (w : World)
    → i.config_url ≡ []
    → w.faults ≡ []
    → fresh_suffix w.files (codes "/tmp/edgi.XXXXXXXX") w.random ≡ some (r, rs)
    → let temp = codes "/tmp/edgi.XXXXXXXX" ++ r in
      install enc cfg i w ≡ install_from enc temp (set_url cfg i temp) (drawn w r rs)
unfolding install temp_file ◌>>=◌
install-from enc cfg i r rs w ui f fs = rw ui (rw f (rw fs refl))

-- A silent installation without a configuration's place: where no call on files fails, the mapper and
-- yaml libraries succeed and the installer leaves the temporary file, the installer is run once, with the variables
-- of the configuration that names the temporary file, and finds in it the configuration without the
-- installation. Its failure is the command's, and the file is gone in the end.
pub run_install-silent :
    (enc : Encoder) (cfg : CloudConfig) (i : Install) (shown entries : Fields)
    (text bytes r s : Bytes) (rs : List Bytes) (k : ℕ) (failure : Option Error) (output : Bytes)
    (effect : Files → Files) (os : List Outcome) (w : World)
    → cfg.edgi.install ≡ some i
    → i.silent ≡ true
    → i.config_url ≡ []
    → w.faults ≡ []
    → w.outcomes ≡ record { failure = failure; output = output; effect = effect } ∷ os
    → fresh_suffix w.files (codes "/tmp/edgi.XXXXXXXX") w.random ≡ some (r, rs)
    → enc.encode_install (some i) ≡ ok shown
    → enc.marshal (to_yaml_keys enc.to_yaml_key shown) ≡ ok text
    → let temp = codes "/tmp/edgi.XXXXXXXX" ++ r in
      enc.encode (set_url cfg i temp) ≡ ok entries
      → enc.marshal_config (without_install (set_url cfg i temp)) ≡ ok bytes
      → let given = update w.files temp (some (file (w.mask 0o600) bytes)) in
        effect given temp ≡ some (file k s)
        → let (result, w') = run_install enc cfg w in
          (result ≡ finished failure)
          × (w'.trace ≡ w.trace ++ ran installer [] [] (map_to_env enc.to_yaml_key [] entries) ∷ [])
          × (w'.files ≡ update (effect given) temp none)
run_install-silent enc cfg i shown entries text bytes r s rs k failure output effect os w ci si ui f
      oe fs ei mi e c kept =
    rw (unasked-install enc cfg i shown text w ci si ei mi) (
      rw (install-from enc cfg i r rs w ui f fs) (
        install_from-quiet enc (set_url cfg i (codes "/tmp/edgi.XXXXXXXX" ++ r)) entries
          (codes "/tmp/edgi.XXXXXXXX" ++ r) bytes s (w.mask 0o600) k failure output effect os
          (drawn w r rs) _ (update_twice w.files (codes "/tmp/edgi.XXXXXXXX" ++ r) _ _) refl oe
          (ground (arith, same_refl (codes "/tmp/edgi.XXXXXXXX" ++ r))) e c kept))
