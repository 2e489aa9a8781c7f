-- ===== src/Base/Paths/Laws.antt =====
-- Laws of the path functions.
use edgi_os.Base.Text.{Bytes, codes}
use edgi_os.Base.Text.{bytes_discrete}
use edgi_os.Base.Paths.{clean, path_join, dir, split_path}
use mathlib.Core.Path.{◌≡◌, refl}
use mathlib.Core.List.{[], ◌∷◌, ◌++◌}
use native.Mathlib.Omega.{arith}

join_test :
    path_join (codes "/proc" ∷ codes "sys" ∷ [] ∷ codes "a/../b//c" ∷ []) ≡ codes "/proc/sys/b/c"
unfolding path_join bytes_discrete
join_test = refl

clean_test :
    (clean (codes "/../..//x/./y/") ≡ codes "/x/y")
    × (clean (codes "../a/../../b") ≡ codes "../../b")
unfolding clean bytes_discrete
clean_test = (refl, refl)

dir_test :
    (dir (codes "/a/b/c") ≡ codes "/a/b")
    × (dir (codes "/a") ≡ codes "/")
    × (dir (codes "a") ≡ codes ".")
unfolding dir bytes_discrete
dir_test = (refl, refl, refl)

-- The directory part and the file part spell the path.
pub split_path-append : (p : Bytes) → (split_path p).0 ++ (split_path p).1 ≡ p
unfolding split_path
split_path-append [] = refl
split_path-append (c ∷ s) = ground (arith, split_path-append s)
