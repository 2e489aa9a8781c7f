-- ===== src/Enter/Scan/Image.antt =====
-- Whether the image is found, and where.
use edgi_os.Base.{
  Bytes, codes, ℕ, zero, suc, ◌+◌, ◌<◌, List, [], ◌∷◌, ◌++◌, map, some, ◌≡◌, ◌≢◌, refl, sym, ap,
  ◌∙◌, ◌⊎◌, inl, inr, arith, get_elem?, length, length-append,
}
use edgi_os.Base.Strings.{to_lower}
use edgi_os.Base.Strings.Laws.{Lacks}
use edgi_os.Os.World.{Error, ok, err}
use edgi_os.Enter.Scan.{Scan, hit, going, panicked, scan_bytes, find_image, no_image, out_of_range}
use edgi_os.Enter.Scan.Laws.{
  answer, joined, scan_reads-joined, scan_bytes-hit, scan_bytes-mark, scan_bytes-Lacks,
}

-- The mark that is looked for.
abbrev pub mark : Bytes
mark = codes "_sqmagic_"

find_image-joined :
    (reads : List Bytes) → find_image (map ok reads) ≡ answer (scan_bytes mark (joined reads) 0 0)
unfolding find_image to_lower
find_image-joined reads = scan_reads-joined mark reads 0 0

-- How the reads cut the file makes no difference to what is found.
pub find_image-reads :
    (reads reads' : List Bytes)
    → joined reads ≡ joined reads'
    → find_image (map ok reads) ≡ find_image (map ok reads')
find_image-reads reads reads' e =
    find_image-joined reads
    ∙ ap (λ (s : Bytes). answer (scan_bytes mark s 0 0)) e
    ∙ sym (find_image-joined reads')

found-hit : (x : Scan) (n : ℕ) → answer x ≡ ok n → x ≡ hit n
found-hit (hit m) n e = cc
found-hit (going o f) n e = cc
found-hit panicked n e = cc

-- An offset that is found is right: the mark stands in the file, and the offset is the one behind it.
pub find_image-behind :
    (reads : List Bytes) (n : ℕ)
    → find_image (map ok reads) ≡ ok n
    → (start : Bytes) × (after : Bytes) × (joined reads ≡ start ++ (mark ++ after))
      × (n ≡ length (start ++ mark))
find_image-behind reads n e =
    let (left, (start, after, text, rest), total) =
      scan_bytes-hit mark [] mark (joined reads) [] 0 n refl
        (found-hit _ n (sym (find_image-joined reads) ∙ e)) in
    (
      start,
      after,
      text,
      omega (arith, ap length text, length-append start (mark ++ after), length-append start mark),
    )

-- A mark with no underscore before it is found.
pub find_image-first :
    (reads : List Bytes) (start after : Bytes)
    → joined reads ≡ start ++ (mark ++ after)
    → Lacks b'_' start
    → find_image (map ok reads) ≡ ok (length (start ++ mark))
find_image-first reads start after e h =
    find_image-joined reads
    ∙ rw e (
        ap answer (
          scan_bytes-Lacks mark (codes "sqmagic_") start (mark ++ after) b'_' 0 refl h
          ∙ scan_bytes-mark mark [] (codes "sqmagic_") after b'_' (0 + length start) refl)
        ∙ ap (λ (k : ℕ). ok k) (omega (arith, length-append start mark)))

-- The bytes of the mark; the last one is an underscore.
mark-at :
    (f : ℕ)
    → f < 9
    → ((c : ℕ) × (get_elem? mark f ≡ some c) × (f < 8)) ⊎ ((f ≡ 8) × (get_elem? mark f ≡ some b'_'))
mark-at zero h = inl (_, refl, omega arith)
mark-at (suc zero) h = inl (_, refl, omega arith)
mark-at (suc (suc zero)) h = inl (_, refl, omega arith)
mark-at (suc (suc (suc zero))) h = inl (_, refl, omega arith)
mark-at (suc (suc (suc (suc zero)))) h = inl (_, refl, omega arith)
mark-at (suc (suc (suc (suc (suc zero))))) h = inl (_, refl, omega arith)
mark-at (suc (suc (suc (suc (suc (suc zero)))))) h = inl (_, refl, omega arith)
mark-at (suc (suc (suc (suc (suc (suc (suc zero))))))) h = inl (_, refl, omega arith)
mark-at (suc (suc (suc (suc (suc (suc (suc (suc zero)))))))) h = inr (refl, refl)
mark-at (suc (suc (suc (suc (suc (suc (suc (suc (suc n))))))))) h = absurd (omega arith)

-- A text without an underscore brings no hit.
scan_bytes-no_hit : (s : Bytes) (o f n : ℕ) → Lacks b'_' s → f < 9 → scan_bytes mark s o f ≢ hit n
unfolding scan_bytes
scan_bytes-no_hit [] o f n h less e = cc
scan_bytes-no_hit (b ∷ s) o f n (h, hs) less e = elim (mark-at f less) [
  | inl (c, at, early) ↦ ground (
    arith,
    scan_bytes-no_hit s (o + 1) (suc f) n hs (omega arith),
    scan_bytes-no_hit s (o + 1) 0 n hs (omega arith),
  )
  | inr (last, at) ↦ ground (arith, scan_bytes-no_hit s (o + 1) 0 n hs (omega arith))
]

no_answer : (x : Scan) → ((n : ℕ) → x ≢ hit n) → (e : Error) × (answer x ≡ err e)
no_answer (hit n) h = absurd (h n refl)
no_answer (going o f) h = (no_image, refl)
no_answer panicked h = (out_of_range, refl)

behind_underscore :
    (after : Bytes) (o : ℕ)
    → scan_bytes mark (b'_' ∷ (mark ++ after)) o 0 ≡ scan_bytes mark after (o + 10) 1
unfolding scan_bytes
behind_underscore after o = ap (λ (k : ℕ). scan_bytes mark after k 1) (omega arith)

-- A mark that stands right behind an underscore is missed, if the file holds no other underscore.
pub find_image-missed :
    (reads : List Bytes) (start after : Bytes)
    → joined reads ≡ start ++ (b'_' ∷ (mark ++ after))
    → Lacks b'_' start
    → Lacks b'_' after
    → (e : Error) × (find_image (map ok reads) ≡ err e)
find_image-missed reads start after e h g =
    let through_start : scan_bytes mark (joined reads) 0 0
        ≡ scan_bytes mark after (length start + 10) 1 =
      rw e (
        scan_bytes-Lacks mark (codes "sqmagic_") start (b'_' ∷ (mark ++ after)) b'_' 0 refl h
        ∙ behind_underscore after (0 + length start)
        ∙ ap (λ (k : ℕ). scan_bytes mark after k 1) (omega arith)) in
    let (x, fails) = no_answer (scan_bytes mark (joined reads) 0 0) (λ n hits.
      scan_bytes-no_hit after (length start + 10) 1 n g (omega arith)
        (sym (through_start) ∙ hits)) in
    (x, find_image-joined reads ∙ fails)
