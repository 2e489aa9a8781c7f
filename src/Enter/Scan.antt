-- ===== src/Enter/Scan.antt =====
-- inFile of pkg/enterchroot/enter.go: the search for the image behind the program.
pub mod Laws
pub mod Image
use edgi_os.Base.{
  Bytes, codes, ℕ, zero, suc, ◌+◌, ◌==◌, Bool, true, false, List, [], ◌∷◌, Option, none, some,
  get_elem?, length, if◌then◌else◌,
}
use edgi_os.Base.Strings.{to_lower}
use edgi_os.Os.World.{Error, message, Result, ok, err}

abbrev pub magic : Bytes
magic = codes "_SQMAGIC_"

-- What the loops have come to: the offset behind the mark, the offset and the count of bytes that
-- fit, or an index out of range.
pub data Scan : Type 0 where
  hit : ℕ → Scan
  going : ℕ → ℕ → Scan
  panicked : Scan

-- The inner loop, over the bytes of one read.
unfoldable pub scan_bytes : Bytes → Bytes → ℕ → ℕ → Scan
scan_bytes test [] offset found = going offset found
scan_bytes test (b ∷ buf) offset found =
    let fits = scan_bytes test buf (offset + 1) (suc found) in
    let differs = scan_bytes test buf (offset + 1) 0 in
    elim (get_elem? test found) [
      | none ↦ panicked
      | some c ↦
          if b == c then if suc found == length test then hit (offset + 1) else fits else differs
    ]

abbrev pub no_image : Error
no_image = message (codes "failed to find image in file")

abbrev pub out_of_range : Error
out_of_range = message (codes "index out of range")

abbrev pub after_read : Scan → (ℕ → ℕ → Result ℕ) → Result ℕ
after_read (hit n) rest = ok n
after_read (going o f) rest = rest o f
after_read panicked rest = err out_of_range

-- The outer loop, over what the successive reads give before the end of the file.
unfoldable pub scan_reads : Bytes → List (Result Bytes) → ℕ → ℕ → Result ℕ
unfolding scan_bytes
scan_reads test [] offset found = err no_image
scan_reads test (err e ∷ reads) offset found = err e
scan_reads test (ok buf ∷ reads) offset found =
    after_read (scan_bytes test buf offset found) (scan_reads test reads)

-- The mark is written in capitals in the program, so that the program does not hold it.
unfoldable pub find_image : List (Result Bytes) → Result ℕ
unfolding scan_reads to_lower
find_image reads = scan_reads (to_lower magic) reads 0 0
