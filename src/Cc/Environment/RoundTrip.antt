-- ===== src/Cc/Environment/RoundTrip.antt =====
-- The text that is written to /etc/environment, read again.
use edgi_os.Base.{
  Bytes, codes, ℕ, false, [], ◌∷◌, ◌++◌, some, has_prefix, length, ltb, ◌==◌, All, All-append, ◌≡◌,
  ◌≢◌, ◌∙◌, refl, sym, ap, append_assoc, lt→ltb, length-append, inl, inr, Option-cases, Bool-cases,
  leb, ◌||◌, ◌&&◌, arith,
}
use edgi_os.Base.Strings.{is_space, trim_space, trim_prefix, split_two, scan_lines, max_token}
use edgi_os.Base.Strings.Laws.{Lacks}
use edgi_os.Base.Strings.Lines.{split_two-at, trim_space-ends, scan_lines-line}
use edgi_os.Base.Quote.{quote, quote_byte, quote_body, quote_control, control_letter, backslash}
use edgi_os.Base.Quote.Laws.{IsAscii, unquote-quote}
use edgi_os.Config.Types.{Entries}
use edgi_os.Cc.Environment.{line_entry, read_lines, insert, insert_all, render, entry_of}
use Prim.Native.Nat.{◌<◌}
use mathlib.Core.Path.{subst}

control_letter-Lacks : (c l : ℕ) → control_letter c ≡ some l → l ≢ 10
unfolding control_letter
control_letter-Lacks c l h = ground arith

quote_control-Lacks : (c : ℕ) → Lacks 10 (quote_control c)
unfolding quote_control
quote_control-Lacks c = elim (Option-cases (control_letter c)) [
  | inl e ↦ rw (e, quote_control) (omega arith, (omega arith, (ground arith, (ground arith, tt))))
  | inr (l, e) ↦ rw (e, quote_control) (omega arith, (control_letter-Lacks c l e, tt))
]

quote_byte-Lacks : (c : ℕ) → Lacks 10 (quote_byte c)
unfolding quote_byte
quote_byte-Lacks c = elim (Bool-cases (c == 34 || c == backslash)) [
  | inl e ↦ rw (e, quote_byte) (omega arith, (ground arith, tt))
  | inr n ↦ elim (Bool-cases (leb 32 c && ltb c 127)) [
    | inl e ↦ rw (n, e, quote_byte) (ground arith, tt)
    | inr m ↦ rw (n, m, quote_byte) (quote_control-Lacks c)
  ]
]

quote_body-Lacks : (s : Bytes) → Lacks 10 (quote_body s)
unfolding quote_body
quote_body-Lacks [] = tt
quote_body-Lacks (c ∷ s) =
    All-append (λ (c : ℕ). c ≢ 10) (quote_byte c) (quote_body s) (quote_byte-Lacks c)
      (quote_body-Lacks s)

-- An entry that a line can hold: the name is not empty, begins with no space and no `#`, does not
-- begin with `export`, and holds no newline and no `=`; the value is ASCII; the line is not too long.
abbrev pub Writable : Bytes × Bytes → Type 0
Writable ([], v) = ⊥
Writable (c ∷ k, v) =
    (is_space c ≡ false)
    × (c ≢ b'#')
    × Lacks 10 (c ∷ k)
    × Lacks b'=' (c ∷ k)
    × (has_prefix (c ∷ k) (codes "export") ≡ false)
    × All IsAscii v
    × (length ((c ∷ k) ++ b'=' ∷ quote v) < max_token)

has_prefix-before :
    (p k rest : Bytes) (b : ℕ)
    → Lacks b p
    → has_prefix k p ≡ false
    → has_prefix (k ++ b ∷ rest) p ≡ false
unfolding has_prefix
has_prefix-before [] k rest b h n = ground arith
has_prefix-before (a ∷ p) [] rest b (x, h) n = ground arith
has_prefix-before (a ∷ p) (c ∷ k) rest b (x, h) n = ground (arith, has_prefix-before p k rest b h)

-- What stands in a line before its last byte, the quote.
abbrev body : Bytes → Bytes → Bytes
body k v = k ++ b'=' ∷ 34 ∷ quote_body v

body-end : (k v : Bytes) → body k v ++ 34 ∷ [] ≡ k ++ b'=' ∷ quote v
unfolding quote
body-end [] v = refl
body-end (c ∷ k) v = ap (λ (t : Bytes). c ∷ t) (body-end k v)

trim_space-written :
    (k v : Bytes) → Writable (k, v) → trim_space (k ++ b'=' ∷ quote v) ≡ k ++ b'=' ∷ quote v
unfolding is_space
trim_space-written [] v h = elim h [ ]
trim_space-written (c ∷ k) v (s, n, l, e, x, a, b) =
    rw (sym (body-end (c ∷ k) v)) (trim_space-ends c (body k v) 34 s refl)

line_entry-plain :
    (l : Bytes)
    → trim_space l ≡ l
    → has_prefix l (codes "#") ≡ false
    → has_prefix l (codes "export") ≡ false
    → 1 < length l
    → line_entry l ≡ some (entry_of (split_two l b'='))
unfolding line_entry trim_prefix
line_entry-plain l t c x n = rw (t, line_entry) (rw (c, x) (rw t (rw (lt→ltb 1 (length l) n))))

entry_of-quote : (k v : Bytes) → All IsAscii v → entry_of (k, some (quote v)) ≡ (k, v)
entry_of-quote k v h = ground (arith, unquote-quote v h)

has_prefix-comment : (c : ℕ) (k : Bytes) → c ≢ b'#' → has_prefix (c ∷ k) (codes "#") ≡ false
unfolding has_prefix
has_prefix-comment c k n = ground arith

line_entry-written :
    (k v : Bytes) → Writable (k, v) → line_entry (k ++ b'=' ∷ quote v) ≡ some (k, v)
line_entry-written [] v h = elim h [ ]
line_entry-written (c ∷ k) v (s, n, l, e, x, a, b) =
    line_entry-plain ((c ∷ k) ++ b'=' ∷ quote v)
      (trim_space-written (c ∷ k) v (s, n, l, e, x, a, b))
      (has_prefix-comment c (k ++ b'=' ∷ quote v) n)
      (has_prefix-before (codes "export") (c ∷ k) (quote v) b'=' (omega arith) x)
      (ground (arith, length-append k (b'=' ∷ quote v)))
    ∙ rw (split_two-at (c ∷ k) (quote v) b'=' e) (ap some (entry_of-quote (c ∷ k) v a))

body-Lacks : (k v : Bytes) → Lacks 10 k → Lacks 10 (body k v ++ 34 ∷ [])
body-Lacks k v h = rw (body-end k v) (
    All-append (λ (c : ℕ). c ≢ 10) k (b'=' ∷ quote v) h
      (
        omega arith,
        unfold quote in
            (
              omega arith,
              All-append (λ (c : ℕ). c ≢ 10) (quote_body v) (34 ∷ []) (quote_body-Lacks v)
                  (omega arith, tt),
            ),
      ))

written_line :
    (k v rest : Bytes) → k ++ b'=' ∷ (quote v ++ 10 ∷ rest) ≡ (body k v ++ 34 ∷ []) ++ 10 ∷ rest
written_line k v rest = rw (body-end k v) (sym (append_assoc k (b'=' ∷ quote v) (10 ∷ rest)))

scan_lines-written :
    (k v rest : Bytes)
    → Writable (k, v)
    → (scan_lines (k ++ b'=' ∷ (quote v ++ 10 ∷ rest))).0
      ≡ (k ++ b'=' ∷ quote v) ∷ (scan_lines rest).0
scan_lines-written [] v rest h = elim h [ ]
scan_lines-written (c ∷ k) v rest (s, n, l, e, x, a, b) =
    let short : length (body (c ∷ k) v ++ 34 ∷ []) < max_token =
      subst (λ (t : Bytes). length t < max_token) (sym (body-end (c ∷ k) v)) b in
    ap (λ (t : Bytes). (scan_lines t).0) (written_line (c ∷ k) v rest)
    ∙ (scan_lines-line (body (c ∷ k) v) 34 rest (body-Lacks (c ∷ k) v l) (omega arith) short
        ∙ ap (λ (t : Bytes). t ∷ (scan_lines rest).0) (body-end (c ∷ k) v))

-- Variables that lines can hold (names that are not empty, begin with no space, `#` or `export`
-- and hold no newline and no `=`; ASCII values; no line that is too long), written to the file and
-- read again, are the variables they were, put over those that were known before.
pub read_lines-render :
    (new m : Entries)
    → All Writable new
    → read_lines (scan_lines (render new)).0 m ≡ insert_all new m
unfolding read_lines insert_all render scan_lines
read_lines-render [] m h = refl
read_lines-render ((k, v) ∷ new) m (h, hs) =
    rw (scan_lines-written k v (render new) h, read_lines)
      (rw (line_entry-written k v h) (read_lines-render new (insert k v m) hs))
