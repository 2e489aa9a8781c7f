-- ===== src/Cc/K3s.antt =====
-- ApplyK3S of pkg/cc/funcs.go, and the three appliers that call it.
pub mod Laws
use edgi_os.Base.{
  Bytes, codes, Bool, true, false, not, ◌&&◌, List, [], ◌∷◌, ◌++◌, map, Option, none, some,
  is_empty, same, has_prefix, if◌then◌else◌,
}
use edgi_os.Base.Sort.{sort_strings}
use edgi_os.Os.World.{Error, Result, ok, err, Node, M, pure, attempt, ◌>>=◌, ◌>>◌}
use edgi_os.Os.Files.{stat}
use edgi_os.Os.Process.{run}
use edgi_os.Config.Types.{CloudConfig, Entries}
use edgi_os.System.{mode}

-- What ApplyK3S looks at besides the configuration.
pub record Site : Type 0 where
  pub mode : Bytes
  pub k3s_exists : Bool
  pub k3s_local_exists : Bool
  pub restart : Bool
  pub install : Bool

-- The returns with nothing done, those in the mode `install` aside.
abbrev pub is_idle : Site → Bool
is_idle s =
    if s.k3s_exists
    then false
    else if s.restart
    then (if s.k3s_local_exists then false else not s.install)
    else true

abbrev pub exists_vars : Bool → Bool → List Bytes
exists_vars true local =
    codes "INSTALL_K3S_SKIP_DOWNLOAD=true"
    ∷ codes "INSTALL_K3S_BIN_DIR=/sbin"
    ∷ codes "INSTALL_K3S_BIN_DIR_READ_ONLY=true"
    ∷ []
exists_vars false true = codes "INSTALL_K3S_SKIP_DOWNLOAD=true" ∷ []
exists_vars false false = []

abbrev pub start_vars : Bool → List Bytes
start_vars true = []
start_vars false = codes "INSTALL_K3S_SKIP_START=true" ∷ []

abbrev pub url_vars : Bytes → List Bytes
url_vars [] = []
url_vars (c ∷ url) = (codes "K3S_URL=" ++ c ∷ url) ∷ []

abbrev pub token_vars : Bytes → List Bytes
token_vars token =
    if has_prefix token (codes "K10")
    then (codes "K3S_TOKEN=" ++ token) ∷ []
    else if is_empty token
    then []
    else (codes "K3S_CLUSTER_SECRET=" ++ token) ∷ []

unfoldable pub k3s_vars : CloudConfig → Site → List Bytes
k3s_vars cfg s =
    codes "INSTALL_K3S_NAME=service"
    ∷ (exists_vars s.k3s_exists s.k3s_local_exists
        ++ (start_vars s.restart ++ (url_vars cfg.edgi.server_url ++ token_vars cfg.edgi.token)))

-- With no arguments the server's address decides what to run.
abbrev pub role_args : List Bytes → Bytes → List Bytes
role_args [] url = if is_empty url then codes "server" ∷ [] else codes "agent" ∷ []
role_args (a ∷ args) url = a ∷ args

abbrev pub entry_labels : Entries → List Bytes
entry_labels = map (λ (k, v). k ++ b'=' ∷ v)

abbrev pub mode_labels : Bytes → List Bytes
mode_labels [] = []
mode_labels (c ∷ m) = (codes "edgi.io/edgi-os/mode=" ++ c ∷ m) ∷ []

abbrev pub label_args : List Bytes → List Bytes
label_args [] = []
label_args (l ∷ ls) = codes "--node-label" ∷ l ∷ label_args ls

abbrev pub taint_args : List Bytes → List Bytes
taint_args [] = []
taint_args (t ∷ ts) = codes "--kubelet-arg" ∷ (codes "register-with-taints=" ++ t) ∷ taint_args ts

abbrev pub is_found : Result Node → Bool
is_found (ok n) = true
is_found (err e) = false

-- The first half of ApplyK3S; there is nothing to look at in the mode `install`.
unfoldable pub survey : Bool → Bool → M (Option Site)
survey restart install = do
  m ← mode []
  if same m (codes "install") then pure none else (do
    k3s ← attempt (stat (codes "/sbin/k3s"))
    local ← attempt (stat (codes "/usr/local/bin/k3s"))
    pure (
        some (record {
          mode = m;
          k3s_exists = is_found k3s;
          k3s_local_exists = is_found local;
          restart = restart;
          install = install;
        })))

module _ (version : Bytes) where
  unfoldable pub node_labels : CloudConfig → Site → List Bytes
  node_labels cfg s =
      entry_labels cfg.edgi.labels
      ++ (mode_labels s.mode ++ (codes "edgi.io/edgi-os/version=" ++ version) ∷ [])

  unfoldable pub k3s_args : CloudConfig → Site → List Bytes
  unfolding node_labels
  k3s_args cfg s =
      role_args cfg.edgi.k3s_args cfg.edgi.server_url
      ++ (label_args (sort_strings (node_labels cfg s)) ++ taint_args cfg.edgi.taints)

  unfoldable pub install_k3s : CloudConfig → Site → M (Unit {0})
  install_k3s cfg s = if is_idle s then pure tt else do
    run (codes "/usr/libexec/edgi/k3s-install.sh") (k3s_args cfg s) [] (k3s_vars cfg s)
    pure tt

  abbrev pub install_at : CloudConfig → Option Site → M (Unit {0})
  install_at cfg none = pure tt
  install_at cfg (some s) = install_k3s cfg s

  unfoldable pub apply_k3s : CloudConfig → Bool → Bool → M (Unit {0})
  apply_k3s cfg restart install = do s ← survey restart install; install_at cfg s

  unfoldable pub apply_k3s_with_restart : CloudConfig → M (Unit {0})
  unfolding apply_k3s
  apply_k3s_with_restart cfg = apply_k3s cfg true false

  unfoldable pub apply_k3s_install : CloudConfig → M (Unit {0})
  unfolding apply_k3s
  apply_k3s_install cfg = apply_k3s cfg true true

  unfoldable pub apply_k3s_no_restart : CloudConfig → M (Unit {0})
  unfolding apply_k3s
  apply_k3s_no_restart cfg = apply_k3s cfg false false
