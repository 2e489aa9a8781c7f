-- ===== src/Cli/Laws.antt =====
-- How main finds what to run.
use edgi_os.Base.{
  Bytes, codes, Bool, true, false, List, [], ◌∷◌, same, ◌||◌, ◌≡◌, ◌≢◌, refl, arith, bytes_discrete,
}
use edgi_os.Base.Paths.{base}
use edgi_os.Cli.Declared.{Flag, Command, App, config_declared, upgrade_declared}
use edgi_os.Cli.{main, app_args}

abbrev is_declared : Bytes → List Flag → Bool
is_declared name [] = false
is_declared name (f ∷ fs) = same name f.name || is_declared name fs

declared_test :
    (is_declared (codes "dump-json") config_declared.flags ≡ true)
    × (is_declared (codes "lock-file") upgrade_declared.flags ≡ true)
unfolding config_declared upgrade_declared bytes_discrete
declared_test = (refl, refl)

-- Run through a link that is named like a command, the program is given the arguments that it has
-- when it is run by its own name with the command in front of the others.
pub main-linked :
    (is_command : List Command → Bytes → Bool) (app : App) (program name : Bytes)
    (args : List Bytes)
    → app.name ≡ codes "edgi"
    → base program ≡ name
    → name ≢ codes "edgi"
    → is_command app.commands name ≡ true
    → program ≢ codes "/init"
    → program ≢ codes "/sbin/init"
    → program ≢ codes "enter-root"
    → main is_command app program args ≡ main is_command app (codes "edgi") (name ∷ args)
unfolding main app_args base
main-linked is_command app program name args e b n known i s r =
    let own : base (codes "edgi") ≡ codes "edgi" = refl in ground arith
