-- ===== src/Command.antt =====
-- pkg/command/command.go
pub mod Laws
use edgi_os.Base.{Bytes, codes, List, [], ◌∷◌, ◌++◌, is_empty, has_prefix, if◌then◌else◌}
use edgi_os.Os.World.{
  Error, wrapped, Result, ok, err, M, pure, raise, attempt, for_each, ◌>>=◌, ◌>>◌,
}
use edgi_os.Os.Process.{run}

abbrev pub wrap_run : Bytes → Result Bytes → M (Unit {0})
wrap_run cmd (ok _) = pure tt
wrap_run cmd (err e) = raise (wrapped (codes "failed to run " ++ cmd) e)

unfoldable pub run_shell : Bytes → M (Unit {0})
run_shell cmd = do r ← attempt (run (codes "sh") (codes "-c" ∷ cmd ∷ []) [] []); wrap_run cmd r

unfoldable pub execute_command : List Bytes → M (Unit {0})
unfolding run_shell
execute_command commands = for_each commands run_shell

-- A password that begins with `$` is taken as encrypted already.
abbrev pub password_args : Bytes → List Bytes
password_args password = if has_prefix password (codes "$") then codes "-e" ∷ [] else []

unfoldable pub set_password : Bytes → M (Unit {0})
set_password password =
    if is_empty password
    then pure tt
    else do run (codes "chpasswd") (password_args password) (codes "edgi:" ++ password) []; pure tt
