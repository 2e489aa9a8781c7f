-- ===== src/Examples/Input.antt =====
-- What is typed at the questions.
use edgi_os.Base.{Bytes, codes, ◌<◌, List, [], ◌∷◌, ◌≡◌, refl, length, arith}
use edgi_os.Base.Strings.{plus, parse_int, trim_space, itoa}
use edgi_os.Os.World.{ok, World}
use edgi_os.Questions.{prompt_options}
use edgi_os.Questions.Laws.{line_option, prompt_options-first}
use edgi_os.Examples.{machine}

abbrev typing : World
typing = record machine { input = codes "x" ∷ codes "7" ∷ codes " 2 " ∷ codes "y" ∷ [] }

abbrev disks : List Bytes
disks = codes "sda" ∷ codes "sdb" ∷ []

prompt_options-first_example :
    let (r, w') = prompt_options (codes "Disk") (plus 0) disks typing in
    (r ≡ ok 1) × (w'.input ≡ codes "y" ∷ []) × (1 < length disks)
unfolding parse_int trim_space itoa line_option
prompt_options-first_example =
    prompt_options-first (codes "Disk") (plus 0) disks 1 (codes "x" ∷ codes "7" ∷ []) (codes " 2 ")
      (codes "y" ∷ []) typing (λ e. omega arith) refl (λ ls. refl) (refl, (refl, tt)) refl

abbrev answering : World
answering = record machine { input = codes "maybe" ∷ codes "Y" ∷ codes "next" ∷ [] }
