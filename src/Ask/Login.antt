-- ===== src/Ask/Login.antt =====
-- AskPassword of pkg/cliinstall/ask.go. Its prompt reads the keys from the terminal that the other
-- questions read lines from; what it prints is left out.
pub mod Laws
use mathlib.Core.List.{flat_map}
use edgi_os.Base.{
  Bytes, codes, ℕ, zero, suc, ◌==◌, Bool, true, false, List, [], ◌∷◌, ◌++◌, Option, none, some,
  same, length, if◌then◌else◌,
}
use edgi_os.Base.Strings.{split, scan_lines}
use edgi_os.Os.World.{Error, eof, message, ok, World, M, pure, raise, gets, defer, ◌>>=◌, ◌>>◌}
use edgi_os.Os.Files.{read_file, write_file}
use edgi_os.Os.Process.{run}
use edgi_os.Config.Types.{CloudConfig}
use edgi_os.Ask.{set_edgi, has_login}
use edgi_os.Util.Password.{Prompted, typed, failed, prompt_password}

abbrev pub keys : World → Bytes
keys w = flat_map (λ l. l ++ 10 ∷ []) w.input

-- The lines of a text whose lines all end in a newline.
unfoldable pub whole_lines : List Bytes → List Bytes
whole_lines [] = []
whole_lines (l ∷ []) = []
whole_lines (l ∷ k ∷ ls) = l ∷ whole_lines (k ∷ ls)

unfoldable pub read_password : M Prompted
unfolding whole_lines
read_password w =
    let (p, unread) = prompt_password (keys w) in
    (ok p, record w { input = whole_lines (split unread 10) })

-- `for !ok`; a round reads one byte at least.
unfoldable pub password_from : ℕ → M Bytes
unfolding read_password
password_from zero = raise eof
password_from (suc n) =
    let again = password_from n in
    do
      p ← read_password
      elim p [ failed e ↦ raise e | typed pass true ↦ pure pass | typed pass false ↦ again ]

abbrev pub shadow : Bytes
shadow = codes "/etc/shadow"

abbrev pub entry_password : List Bytes → Option Bytes
entry_password (name ∷ hash ∷ more) = if same name (codes "edgi") then some hash else none
entry_password _ = none

-- The password of the first line for the user.
unfoldable pub shadow_password : List Bytes → Option Bytes
shadow_password [] = none
shadow_password (l ∷ ls) =
    let rest = shadow_password ls in
    elim (entry_password (split l b':')) [ some hash ↦ some hash | none ↦ rest ]

abbrev pub take_password : CloudConfig → Option Bytes → Bool → M CloudConfig
take_password cfg (some hash) long = pure (set_edgi cfg (record cfg.edgi { password = hash }))
take_password cfg none true = raise (message (codes "bufio.Scanner: token too long"))
take_password cfg none false = pure cfg

-- The password is set with chpasswd to learn its hash, and the file is put back in the end.
unfoldable pub hash_password : CloudConfig → Bytes → M CloudConfig
unfolding shadow_password
hash_password cfg pass = do
  old ← read_file shadow
  defer (write_file shadow old 0o640) (do
    run (codes "chpasswd") [] (codes "edgi:" ++ pass) []
    text ← read_file shadow
    let (lines, long) = scan_lines text
    take_password cfg (shadow_password lines) long)

-- os.Getuid
module _ (uid : ℕ) where
  unfoldable pub ask_password : CloudConfig → M CloudConfig
  unfolding hash_password password_from
  ask_password cfg = if has_login cfg then pure cfg else do
    n ← gets (λ w. suc (length (keys w)))
    pass ← password_from n
    if uid == 0
        then hash_password cfg pass
        else pure (set_edgi cfg (record cfg.edgi { password = pass }))
