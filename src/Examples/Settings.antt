-- ===== src/Examples/Settings.antt =====
-- The settings of the machine, and the order of what is run.
use mathlib.Core.List.{foldl, Perm}
use mathlib.Core.List.Perm
use edgi_os.Base.{
  Bytes, codes, List, [], ◌∷◌, ◌++◌, some, true, false, ◌≡◌, ◌⊎◌, refl, ap, length, arith, All,
  bytes_discrete,
}
use edgi_os.Base.Strings.{is_space, scan_lines}
use edgi_os.Os.World.{ok, errno, file, ran, hostname_set, World, pure, ◌>>=◌}
use edgi_os.Os.Tree.{is_within}
use edgi_os.Config.Types.{CloudConfig, Entries}
use edgi_os.Config.Values.{no_field, field, text}
use edgi_os.Config.Read.{Library, merge, read_config_file}
use edgi_os.Config.Read.Laws.{collected, merge-fold}
use edgi_os.Sysctl.{sysctl_path}
use edgi_os.Sysctl.Laws.{sysctl_path-under}
use edgi_os.Hostname.{set_hostname}
use edgi_os.Hostname.Laws.{HostLines, text_of, set_hostname-files}
use edgi_os.Cc.Applies.{run_applies, apply_hostname, apply_runcmd}
use edgi_os.Cc.Applies.Laws.{results, errors_of, IsOutcome, run_applies-runs_all}
use edgi_os.Cc.K3s.{Site, k3s_args, k3s_vars, install_k3s, apply_k3s}
use edgi_os.Cc.K3s.Laws.{with_labels, Has, apply_k3s-perm, install_k3s-no_restart}
use edgi_os.Cc.Environment.{lookup, insert_all, render, read_lines, apply_environment}
use edgi_os.Cc.Environment.RoundTrip.{Writable, read_lines-render}
use edgi_os.Cc.Environment.Refines.{Refined, Clean, render-Clean, apply_environment-refines}
use edgi_os.Examples.{machine, config, standing}
use edgi_os.Config.Sources.{empty_edgi}
use edgi_os.Base.{has_prefix}
use edgi_os.Base.Quote.{quote}

run_applies-runs_all_example :
    let (outcome, w') = run_applies config (apply_hostname ∷ apply_runcmd ∷ []) machine in
    IsOutcome (errors_of (results config (apply_hostname ∷ apply_runcmd ∷ []) machine)) outcome
    × (w' ≡ foldl (λ v a. (a config v).1) machine (apply_hostname ∷ apply_runcmd ∷ []))
run_applies-runs_all_example =
    run_applies-runs_all config (apply_hostname ∷ apply_runcmd ∷ []) machine

-- A library that keeps the names and lets the newer data win.
abbrev library : Library
library = record {
  to_internal = λ f. ok f;
  update_merge = λ older newer. newer;
  to_object = λ f. ok config;
  unmarshal = λ s. ok (field (codes "hostname") (text s) no_field);
}

merge-fold_example :
    merge library
      (read_config_file library (codes "/etc/hosts")
        ∷ read_config_file library (codes "/etc/none")
        ∷ [])
      machine
    ≡ (collected library (
            read_config_file library (codes "/etc/hosts")
            ∷ read_config_file library (codes "/etc/none")
            ∷ [])
          >>= (λ all. pure (foldl library.update_merge no_field all)))
        machine
merge-fold_example =
    merge-fold library
      (read_config_file library (codes "/etc/hosts")
        ∷ read_config_file library (codes "/etc/none")
        ∷ [])
      machine

abbrev failing : World
failing = record machine {
  outcomes = record { failure = some (errno 1); output = []; effect = λ fs. fs } ∷ [];
}

sysctl_path-under_example :
    is_within (codes "/proc/sys") (sysctl_path (codes "net/../../etc.passwd")) ≡ true
sysctl_path-under_example = sysctl_path-under (codes "net/../../etc.passwd")

set_hostname-files_example :
    let (r, w') = set_hostname config machine in
    (r ≡ ok tt)
    × (w'.hostname ≡ codes "node")
    × (w'.trace ≡ [] ++ hostname_set (codes "node") ∷ [])
    × (w'.files (codes "/etc/hostname") ≡ some (file 0o644 (codes "node" ++ codes "\n")))
    × ((lines : List Bytes) × HostLines
          (codes "node")
          (scan_lines (codes "127.0.0.1 localhost\n127.0.1.1 old\n")).0
          lines
        × (w'.files (codes "/etc/hosts") ≡ some (file 0o644 (text_of lines))))
unfolding bytes_discrete
set_hostname-files_example =
    set_hostname-files config 0o644 0o644 (codes "127.0.0.1 localhost\n127.0.1.1 old\n")
      (codes "old\n") machine (λ e. omega (arith, ap length e)) refl refl refl

abbrev label_a : Bytes × Bytes
label_a = (codes "a", codes "1")

abbrev label_b : Bytes × Bytes
label_b = (codes "b", codes "2")

labels-perm : Perm (label_b ∷ label_a ∷ []) (label_a ∷ label_b ∷ [])
labels-perm = Perm.swap label_a label_b []

apply_k3s-perm_example :
    apply_k3s (codes "v1") (with_labels config (label_b ∷ label_a ∷ [])) true false machine
    ≡ apply_k3s (codes "v1") (with_labels config (label_a ∷ label_b ∷ [])) true false machine
apply_k3s-perm_example =
    apply_k3s-perm (codes "v1") config (label_b ∷ label_a ∷ []) (label_a ∷ label_b ∷ []) true false
      machine labels-perm

abbrev booting : Site
booting = record {
  mode = codes "local";
  k3s_exists = true;
  k3s_local_exists = false;
  restart = false;
  install = false;
}

install_k3s-no_restart_example :
    ((install_k3s (codes "v1") config booting machine).1 ≡ machine)
    ⊎ (((install_k3s (codes "v1") config booting machine).1.trace
          ≡ []
            ++ ran
                (codes "/usr/libexec/edgi/k3s-install.sh")
                (k3s_args (codes "v1") config booting)
                []
                (k3s_vars config booting)
              ∷ [])
        × Has (codes "INSTALL_K3S_SKIP_DOWNLOAD=true") (k3s_vars config booting)
        × Has (codes "INSTALL_K3S_SKIP_START=true") (k3s_vars config booting))
install_k3s-no_restart_example = install_k3s-no_restart (codes "v1") config booting machine refl

abbrev old_variables : Entries
old_variables = (codes "PATH", codes "/bin") ∷ (codes "LANG", codes "C") ∷ []

abbrev new_variables : Entries
new_variables = (codes "LANG", codes "en") ∷ (codes "TZ", codes "UTC") ∷ []

old_variables-Writable : All Writable old_variables
unfolding is_space has_prefix quote
old_variables-Writable = (
  (refl, omega arith, omega arith, omega arith, refl, omega arith, omega arith),
  ((refl, omega arith, omega arith, omega arith, refl, omega arith, omega arith), tt),
)

new_variables-Writable : All Writable new_variables
unfolding is_space has_prefix quote
new_variables-Writable = (
  (refl, omega arith, omega arith, omega arith, refl, omega arith, omega arith),
  ((refl, omega arith, omega arith, omega arith, refl, omega arith, omega arith), tt),
)

read_lines-render_example :
    read_lines (scan_lines (render new_variables)).0 old_variables
    ≡ insert_all new_variables old_variables
read_lines-render_example = read_lines-render new_variables old_variables new_variables-Writable

-- The machine with variables in its file, and a configuration of variables.
abbrev furnished : World
furnished = record machine {
  files = standing ((codes "/etc/environment", file 0o644 (render old_variables)) ∷ []);
}

abbrev with_variables : CloudConfig
with_variables = record config { edgi = record empty_edgi { environment = new_variables } }

furnished-Clean : Clean furnished.files
furnished-Clean =
    render-Clean furnished.files 0o644 old_variables (unfold bytes_discrete in refl)
      old_variables-Writable

apply_environment-refines_example :
    Refined new_variables furnished (apply_environment with_variables furnished)
unfolding lookup bytes_discrete
apply_environment-refines_example =
    apply_environment-refines with_variables furnished new_variables-Writable (refl, (refl, tt))
      furnished-Clean refl
