-- ===== src/Ssh.antt =====
-- SetAuthorizedKeys of pkg/ssh/ssh.go.
pub mod Users
pub mod Keys
use edgi_os.Base.{Bytes, codes, Bool, List, [], ◌∷◌, ◌++◌}
use edgi_os.Base.Paths.{path_join}
use edgi_os.Os.World.{
  Error, not_exist, Result, ok, err, Node, M, pure, raise, lift, attempt, log, for_each, ◌>>=◌,
  ◌>>◌,
}
use edgi_os.Os.Files.{stat, read_file}
use edgi_os.Os.Tree.{mkdir, chown}
use edgi_os.Config.Types.{CloudConfig}
use Users.{User, find_user_home_dir}
use Keys.{authorize_ssh_key}

abbrev pub ensure_ssh_dir : Bytes → Result Node → M (Unit {0})
ensure_ssh_dir path (ok info) = pure tt
ensure_ssh_dir path (err not_exist) = mkdir path 0o700
ensure_ssh_dir path (err e) = raise e

abbrev pub log_failure : Bytes → Result (Unit {0}) → M (Unit {0})
log_failure key (ok _) = pure tt
log_failure key (err e) = log (codes "failed to authorize SSH key " ++ key)

unfoldable pub authorize_all : List Bytes → Bytes → User → Bool → M (Unit {0})
unfolding authorize_ssh_key
authorize_all keys path user with_net = for_each keys (λ key. do
  r ← attempt (authorize_ssh_key key path user.uid user.gid with_net)
  log_failure key r)

unfoldable pub set_authorized_keys : CloudConfig → Bool → M (Unit {0})
unfolding authorize_all find_user_home_dir
set_authorized_keys cfg with_net = do
  bytes ← read_file (codes "/etc/passwd")
  user ← lift (find_user_home_dir bytes (codes "edgi"))
  let ssh_dir = path_join (user.home ∷ codes ".ssh" ∷ [])
  found ← attempt (stat ssh_dir)
  ensure_ssh_dir ssh_dir found
  chown ssh_dir user.uid user.gid
  authorize_all cfg.ssh_authorized_keys (path_join (ssh_dir ∷ codes "authorized_keys" ∷ [])) user
      with_net
