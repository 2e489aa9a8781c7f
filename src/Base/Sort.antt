-- ===== src/Base/Sort.antt =====
-- sort.Strings: texts in the order of their bytes.
pub mod Laws
use edgi_os.Base.Text.{Bytes}
use edgi_os.Base.Tests.{ltb, if◌then◌else◌}
use mathlib.Core.Bool.{Bool, true, false}
use mathlib.Core.List.{List, [], ◌∷◌}

unfoldable pub text_le : Bytes → Bytes → Bool
text_le [] t = true
text_le (a ∷ s) [] = false
text_le (a ∷ s) (b ∷ t) =
    let rest = text_le s t in if ltb a b then true else if ltb b a then false else rest

unfoldable pub insert_text : Bytes → List Bytes → List Bytes
insert_text s [] = s ∷ []
insert_text s (t ∷ ts) = let rest = insert_text s ts in if text_le s t then s ∷ t ∷ ts else t ∷ rest

unfoldable pub sort_strings : List Bytes → List Bytes
unfolding text_le insert_text
sort_strings [] = []
sort_strings (s ∷ ss) = insert_text s (sort_strings ss)
