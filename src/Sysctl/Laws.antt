-- ===== src/Sysctl/Laws.antt =====
-- Where the settings are written.
use mathlib.Core.List.{reverse, reverse-append}
use edgi_os.Base.{
  Bytes, codes, ℕ, true, List, [], ◌∷◌, ◌++◌, ◌≡◌, ◌≢◌, refl, ap, sym, ◌∙◌, Bool-cases, inl, inr,
  ◌==◌, arith, All, All-append, bytes_discrete, has_prefix-append, append_assoc,
}
use edgi_os.Base.Strings.{split, join, push_head}
use edgi_os.Base.Strings.Laws.{Lacks, split-Lacks}
use edgi_os.Base.Paths.{clean, clean_parts, clean_step, path_join, drop_empty, slash}
use edgi_os.Os.Tree.{is_within}
use edgi_os.Sysctl.{sysctl_path}

push_head-All :
    (b c : ℕ) (ps : List Bytes) → c ≢ b → All (Lacks b) ps → All (Lacks b) (push_head c ps)
push_head-All b c [] n _ = ((n, tt), tt)
push_head-All b c (p ∷ ps) n (h, hs) = ((n, h), hs)

-- The parts of a text that lacks a byte lack it too.
split-keeps_Lacks : (b sep : ℕ) (s : Bytes) → Lacks b s → All (Lacks b) (split s sep)
unfolding split
split-keeps_Lacks b sep [] h = (tt, tt)
split-keeps_Lacks b sep (c ∷ s) (h, hs) = elim (Bool-cases (c == sep)) [
  | inl e ↦ rw e (tt, split-keeps_Lacks b sep s hs)
  | inr n ↦ rw n (push_head-All b c (split s sep) h (split-keeps_Lacks b sep s hs))
]

clean_step-plain :
    (c : ℕ) (s : Bytes) (kept : List Bytes)
    → c ≢ b'.'
    → clean_step true (c ∷ s) kept ≡ (c ∷ s) ∷ kept
clean_step-plain c s kept n = ground arith

-- Elements without a dot only add to what is kept.
clean_parts-Lacks :
    (cs kept : List Bytes)
    → All (Lacks b'.') cs
    → (more : List Bytes) × (clean_parts true cs kept ≡ more ++ kept)
unfolding clean_parts
clean_parts-Lacks [] kept h = ([], refl)
clean_parts-Lacks ([] ∷ cs) kept (h, hs) = clean_parts-Lacks cs kept hs
clean_parts-Lacks ((c ∷ s) ∷ cs) kept ((h, hc), hs) =
    let (more, e) = clean_parts-Lacks cs ((c ∷ s) ∷ kept) hs in
    (
      more ++ (c ∷ s) ∷ [],
      ap (clean_parts true cs) (clean_step-plain c s kept h)
          ∙ e
          ∙ sym (append_assoc more ((c ∷ s) ∷ []) kept),
    )

join-Lacks :
    (b : ℕ) (ps : List Bytes) → b ≢ slash → All (Lacks b) ps → Lacks b (join ps (slash ∷ []))
unfolding join
join-Lacks b [] n h = tt
join-Lacks b (p ∷ []) n (h, hs) = h
join-Lacks b (p ∷ q ∷ ps) n (h, hs) =
    All-append _ p _ h ((λ e. n (sym e)), join-Lacks b (q ∷ ps) n hs)

drop_empty-All : (b : ℕ) (ps : List Bytes) → All (Lacks b) ps → All (Lacks b) (drop_empty ps)
unfolding drop_empty
drop_empty-All b [] h = tt
drop_empty-All b ([] ∷ ps) (h, hs) = drop_empty-All b ps hs
drop_empty-All b ((c ∷ p) ∷ ps) (h, hs) = (h, drop_empty-All b ps hs)

-- A cleaned path whose first elements are `proc` and `sys` lies under them.
joined_under :
    (ys : List Bytes)
    → is_within (codes "/proc/sys") (slash ∷ join (codes "proc" ∷ codes "sys" ∷ ys) (slash ∷ []))
      ≡ true
unfolding join
joined_under [] = unfold bytes_discrete in refl
joined_under (y ∷ ys) =
    ground (arith, has_prefix-append (codes "/proc/sys/") (join (y ∷ ys) (slash ∷ [])))

clean_under :
    (u : Bytes)
    → Lacks b'.' u
    → is_within (codes "/proc/sys") (clean (codes "/proc/sys/" ++ u)) ≡ true
unfolding clean split clean_parts bytes_discrete
clean_under u h =
    let (more, e) =
      clean_parts-Lacks (split u slash) (codes "sys" ∷ codes "proc" ∷ [])
        (split-keeps_Lacks b'.' slash u h) in
    rw (e, reverse-append) (joined_under (reverse more))

sysctl_path-joined :
    (ps : List Bytes)
    → All (Lacks b'.') ps
    → is_within (codes "/proc/sys") (clean (join (codes "/proc" ∷ codes "sys" ∷ ps) (slash ∷ [])))
      ≡ true
unfolding join
sysctl_path-joined [] h = unfold clean bytes_discrete in refl
sysctl_path-joined (p ∷ ps) h =
    clean_under (join (p ∷ ps) (slash ∷ [])) (join-Lacks b'.' (p ∷ ps) (omega arith) h)

-- Whatever the name of a setting is, the file that is written for it lies under /proc/sys.
pub sysctl_path-under : (k : Bytes) → is_within (codes "/proc/sys") (sysctl_path k) ≡ true
unfolding sysctl_path path_join drop_empty
sysctl_path-under k =
    sysctl_path-joined (drop_empty (split k b'.'))
      (drop_empty-All b'.' (split k b'.') (split-Lacks k b'.'))
