-- ===== src/Enter/Scan/Laws.antt =====
-- Where the image is found.
use mathlib.Core.Path.{subst}
use edgi_os.Base.{
  Bytes, ℕ, suc, ◌+◌, ◌==◌, false, List, [], ◌∷◌, ◌++◌, map, append_assoc, none, some, ◌≡◌, ◌≢◌,
  refl, sym, ap, ◌∙◌, inl, inr, arith, Bool-cases, get_elem?, length, length-append,
}
use edgi_os.Base.Strings.Laws.{Lacks}
use edgi_os.Os.World.{Result, ok, err}
use edgi_os.Enter.Scan.{
  Scan, hit, going, panicked, scan_bytes, after_read, scan_reads, no_image, out_of_range,
}

-- The search goes on behind a read.
abbrev onward : Bytes → Scan → Bytes → Scan
onward test (hit n) buf = hit n
onward test (going o f) buf = scan_bytes test buf o f
onward test panicked buf = panicked

scan_bytes-append :
    (test s t : Bytes) (o f : ℕ)
    → scan_bytes test (s ++ t) o f ≡ onward test (scan_bytes test s o f) t
unfolding scan_bytes
scan_bytes-append test [] t o f = refl
scan_bytes-append test (b ∷ s) t o f =
    ground (arith, scan_bytes-append test s t (o + 1) (suc f), scan_bytes-append test s t (o + 1) 0)

-- What inFile returns for what its search has come to.
abbrev pub answer : Scan → Result ℕ
answer (hit n) = ok n
answer (going o f) = err no_image
answer panicked = err out_of_range

unfoldable pub joined : List Bytes → Bytes
joined [] = []
joined (c ∷ cs) = c ++ joined cs

after_read-onward :
    (test buf : Bytes) (x : Scan) (rest : ℕ → ℕ → Result ℕ)
    → ((o f : ℕ) → rest o f ≡ answer (scan_bytes test buf o f))
    → after_read x rest ≡ answer (onward test x buf)
after_read-onward test buf (hit n) rest h = refl
after_read-onward test buf (going o f) rest h = h o f
after_read-onward test buf panicked rest h = refl

pub scan_reads-joined :
    (test : Bytes) (reads : List Bytes) (o f : ℕ)
    → scan_reads test (map ok reads) o f ≡ answer (scan_bytes test (joined reads) o f)
unfolding scan_reads joined
scan_reads-joined test [] o f = unfold scan_bytes in refl
scan_reads-joined test (c ∷ reads) o f =
    after_read-onward test (joined reads) (scan_bytes test c o f) (scan_reads test (map ok reads))
      (scan_reads-joined test reads)
    ∙ ap answer (sym (scan_bytes-append test c (joined reads) o f))

get_elem?-behind : (front : Bytes) → get_elem? (front ++ []) (length front) ≡ none
get_elem?-behind [] = refl
get_elem?-behind (a ∷ front) = get_elem?-behind front

get_elem?-middle :
    (front back : Bytes) (c : ℕ) → get_elem? (front ++ c ∷ back) (length front) ≡ some c
get_elem?-middle [] back c = refl
get_elem?-middle (a ∷ front) back c = get_elem?-middle front back c

-- One byte of the search, where the next byte of the mark is known.
module _ (test front back : Bytes) (c : ℕ) (split : test ≡ front ++ c ∷ back) where
  pub scan_bytes-differs :
      (b o : ℕ) (buf : Bytes)
      → (b == c) ≡ false
      → scan_bytes test (b ∷ buf) o (length front) ≡ scan_bytes test buf (o + 1) 0
  unfolding scan_bytes
  scan_bytes-differs b o buf h = ground (arith, get_elem?-middle front back c)

  scan_bytes-fits :
      (o : ℕ) (buf : Bytes)
      → back ≢ []
      → scan_bytes test (c ∷ buf) o (length front)
        ≡ scan_bytes test buf (o + 1) (suc (length front))
  unfolding scan_bytes
  scan_bytes-fits o buf h =
      ground (arith, get_elem?-middle front back c, length-append front (c ∷ back))

  scan_bytes-last :
      (o : ℕ) (buf : Bytes) → back ≡ [] → scan_bytes test (c ∷ buf) o (length front) ≡ hit (o + 1)
  unfolding scan_bytes
  scan_bytes-last o buf h =
      ground (arith, get_elem?-middle front back c, length-append front (c ∷ back))

scan_bytes-behind :
    (test front buf : Bytes) (b o n : ℕ)
    → test ≡ front ++ []
    → scan_bytes test (b ∷ buf) o (length front) ≡ hit n
    → ⊥
unfolding scan_bytes
scan_bytes-behind test front buf b o n split e = ground (arith, get_elem?-behind front)

-- The mark stands in the text, and so much is left behind it.
abbrev pub Stands : Bytes → Bytes → ℕ → Type 0
Stands test s left =
    (start : Bytes) × (after : Bytes) × (s ≡ start ++ (test ++ after)) × (length after ≡ left)

Stands-regroup :
    (test before front buf : Bytes) (b left : ℕ)
    → Stands test ((before ++ (front ++ b ∷ [])) ++ buf) left
    → Stands test (before ++ (front ++ b ∷ buf)) left
Stands-regroup test before front buf b left h =
    subst (λ (s : Bytes). Stands test s left) (simp append_assoc) h

hit-value : (a n : ℕ) → hit a ≡ hit n → a ≡ n
hit-value a n e = cc

-- A hit that the next byte brings about, and one that comes later.
pub scan_bytes-hit :
    (test front back buf before : Bytes) (o n : ℕ)
    → test ≡ front ++ back
    → scan_bytes test buf o (length front) ≡ hit n
    → (left : ℕ) × Stands test (before ++ (front ++ buf)) left × (n + left ≡ o + length buf)
scan_bytes-hit test front back [] before o n split e = absurd (unfold scan_bytes in cc e)
scan_bytes-hit test front [] (b ∷ buf) before o n split e =
    absurd (scan_bytes-behind test front buf b o n split e)
scan_bytes-hit test front (c ∷ []) (b ∷ buf) before o n split e = elim (Bool-cases (b == c)) [
  | inl fits ↦
      let same_byte : b ≡ c = ground arith in
      let now : o + 1 ≡ n = hit-value (o + 1) n (
        sym (scan_bytes-last test front [] c split o buf refl)
        ∙ subst (λ (x : ℕ). scan_bytes test (x ∷ buf) o (length front) ≡ hit n) same_byte e) in
      (length buf, (before, buf, rw (split, same_byte) (simp append_assoc), refl), omega arith)
  | inr differs ↦
      let (left, stands, total) =
        scan_bytes-hit test [] test buf (before ++ (front ++ b ∷ [])) (o + 1) n refl
          (sym (scan_bytes-differs test front [] c split b o buf differs) ∙ e) in
      (left, Stands-regroup test before front buf b left stands, omega (arith, total))
]
scan_bytes-hit test front (c ∷ d ∷ back) (b ∷ buf) before o n split e = elim (Bool-cases (b == c)) [
  | inl fits ↦
      let same_byte : b ≡ c = ground arith in
      let (left, stands, total) =
        scan_bytes-hit test (front ++ c ∷ []) (d ∷ back) buf before (o + 1) n
          (split ∙ sym (append_assoc front (c ∷ []) (d ∷ back)))
          (subst (λ (k : ℕ). scan_bytes test buf (o + 1) k ≡ hit n)
            (omega (arith, length-append front (c ∷ [])))
            (sym (scan_bytes-fits test front (d ∷ back) c split o buf (λ p. cc))
              ∙ subst (λ (x : ℕ). scan_bytes test (x ∷ buf) o (length front) ≡ hit n) same_byte
                  e)) in
      (
        left,
        subst (λ (s : Bytes). Stands test s left) (rw same_byte (simp append_assoc)) stands,
        omega (arith, total),
      )
  | inr differs ↦
      let (left, stands, total) =
        scan_bytes-hit test [] test buf (before ++ (front ++ b ∷ [])) (o + 1) n refl
          (sym (scan_bytes-differs test front (d ∷ back) c split b o buf differs) ∙ e) in
      (left, Stands-regroup test before front buf b left stands, omega (arith, total))
]

-- The search reaches the first mark if no byte before it is the mark's first.
pub scan_bytes-mark :
    (test front back after : Bytes) (c o : ℕ)
    → test ≡ front ++ c ∷ back
    → scan_bytes test ((c ∷ back) ++ after) o (length front) ≡ hit (o + suc (length back))
scan_bytes-mark test front [] after c o split =
    scan_bytes-last test front [] c split o after refl ∙ ap hit (omega arith)
scan_bytes-mark test front (d ∷ back) after c o split =
    scan_bytes-fits test front (d ∷ back) c split o (d ∷ (back ++ after)) (λ p. cc)
    ∙ subst
        (λ (k : ℕ).
          scan_bytes test ((d ∷ back) ++ after) (o + 1) k ≡ hit (o + suc (suc (length back))))
        (omega (arith, length-append front (c ∷ [])))
        (scan_bytes-mark test (front ++ c ∷ []) back after d (o + 1)
            (split ∙ sym (append_assoc front (c ∷ []) (d ∷ back)))
          ∙ ap hit (omega arith))

pub scan_bytes-Lacks :
    (test back s t : Bytes) (c o : ℕ)
    → test ≡ c ∷ back
    → Lacks c s
    → scan_bytes test (s ++ t) o 0 ≡ scan_bytes test t (o + length s) 0
scan_bytes-Lacks test back [] t c o split h = ap (λ (k : ℕ). scan_bytes test t k 0) (omega arith)
scan_bytes-Lacks test back (b ∷ s) t c o split (h, hs) =
    scan_bytes-differs test [] back c split b o (s ++ t) (ground arith)
    ∙ scan_bytes-Lacks test back s t c (o + 1) split hs
    ∙ ap (λ (k : ℕ). scan_bytes test t k 0) (omega arith)
