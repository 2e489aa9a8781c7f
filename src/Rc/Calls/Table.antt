-- ===== src/Rc/Calls/Table.antt =====
-- The table of control groups that the kernel prints, as cgroupList of pkg/cli/rc/rc.go reads it.
use edgi_os.Base.{
  Bytes, codes, ℕ, false, List, [], ◌∷◌, ◌++◌, some, same, contains, has_prefix, is_empty, map, All,
  All-append, All-weaken, ◌≡◌, ◌≢◌, refl, ap, arith, if◌then◌else◌,
}
use edgi_os.Base.Strings.{split, drop_cr}
use edgi_os.Base.Strings.Laws.{Lacks}
use edgi_os.Base.Strings.Lines.{split-line}
use edgi_os.Os.World.{ok, file, charge, World, ◌>>=◌}
use edgi_os.Os.Files.{read_file, follow}
use edgi_os.Rc.Calls.{read_record, read_records, enabled_names, cgroup_list}

-- A line of the table.
pub record Group : Type 0 where
  pub name : Bytes
  pub hierarchy : Bytes
  pub count : Bytes
  pub enabled : Bytes

-- No tab, newline, carriage return or quote.
abbrev pub IsPlain : ℕ → Type 0
IsPlain c = (c ≢ 9) × (c ≢ 10) × (c ≢ 13) × (c ≢ 34)

abbrev pub Plain : Group → Type 0
Plain g = All IsPlain g.name × All IsPlain g.hierarchy × All IsPlain g.count × All IsPlain g.enabled

pub print_group : Group → Bytes
print_group g = g.name ++ 9 ∷ (g.hierarchy ++ 9 ∷ (g.count ++ 9 ∷ g.enabled))

pub print_groups : List Group → Bytes
unfolding print_group
print_groups [] = []
print_groups (g ∷ gs) = print_group g ++ 10 ∷ print_groups gs

-- The names of those that are enabled.
pub enabled_groups : List Group → List Bytes
enabled_groups [] = []
enabled_groups (g ∷ gs) =
    if same g.enabled (codes "1") then g.name ∷ enabled_groups gs else enabled_groups gs

plain-Lacks : (s : Bytes) → All IsPlain s → Lacks 9 s × Lacks 10 s × Lacks 13 s × Lacks 34 s
plain-Lacks s h = (
  All-weaken IsPlain (λ c. c ≢ 9) s (λ c (t, n, r, q). t) h,
  All-weaken IsPlain (λ c. c ≢ 10) s (λ c (t, n, r, q). n) h,
  All-weaken IsPlain (λ c. c ≢ 13) s (λ c (t, n, r, q). r) h,
  All-weaken IsPlain (λ c. c ≢ 34) s (λ c (t, n, r, q). q) h,
)

-- What no part of a line holds, the line does not hold.
print_group-Lacks :
    (b : ℕ) (g : Group)
    → 9 ≢ b
    → Lacks b g.name
    → Lacks b g.hierarchy
    → Lacks b g.count
    → Lacks b g.enabled
    → Lacks b (print_group g)
unfolding print_group
print_group-Lacks b g t n h c e =
    All-append (λ (x : ℕ). x ≢ b) g.name (9 ∷ (g.hierarchy ++ 9 ∷ (g.count ++ 9 ∷ g.enabled))) n
      (
        t,
        All-append (λ (x : ℕ). x ≢ b) g.hierarchy (9 ∷ (g.count ++ 9 ∷ g.enabled)) h
            (t, All-append (λ (x : ℕ). x ≢ b) g.count (9 ∷ g.enabled) c (t, e)),
      )

drop_cr-Lacks : (s : Bytes) → Lacks 13 s → drop_cr s ≡ s
drop_cr-Lacks [] h = refl
drop_cr-Lacks (c ∷ []) (n, h) = ground arith
drop_cr-Lacks (c ∷ d ∷ s) (n, h) = ap (λ (t : Bytes). c ∷ t) (drop_cr-Lacks (d ∷ s) h)

contains-Lacks : (b : ℕ) (s : Bytes) → Lacks b s → contains s (b ∷ []) ≡ false
unfolding contains has_prefix
contains-Lacks b [] h = refl
contains-Lacks b (c ∷ s) (n, h) = ground (arith, contains-Lacks b s h)

split-Lacks : (s : Bytes) (sep : ℕ) → Lacks sep s → split s sep ≡ s ∷ []
unfolding split
split-Lacks [] sep h = refl
split-Lacks (c ∷ s) sep (n, h) = ground (arith, split-Lacks s sep h)

append-filled : (s : Bytes) (b : ℕ) (t : Bytes) → is_empty (s ++ b ∷ t) ≡ false
append-filled [] b t = refl
append-filled (c ∷ s) b t = refl

read_table :
    (w : World) (m : ℕ) (s : Bytes)
    → w.faults ≡ []
    → w.files (codes "/proc/cgroups") ≡ some (file m s)
    → read_file (codes "/proc/cgroups") w ≡ (ok s, charge w)
unfolding read_file follow
read_table w m s f e = ground (arith, f, e)

print_group-split :
    (g : Group)
    → Plain g
    → split (print_group g) 9 ≡ g.name ∷ g.hierarchy ∷ g.count ∷ g.enabled ∷ []
unfolding print_group
print_group-split g (n, h, c, e) =
    rw
      (split-line g.name (g.hierarchy ++ 9 ∷ (g.count ++ 9 ∷ g.enabled)) 9 (plain-Lacks g.name n).0)
      (rw (split-line g.hierarchy (g.count ++ 9 ∷ g.enabled) 9 (plain-Lacks g.hierarchy h).0) (
        rw (split-line g.count g.enabled 9 (plain-Lacks g.count c).0)
          (rw (split-Lacks g.enabled 9 (plain-Lacks g.enabled e).0) refl)))

-- A line holds no newline, no carriage return and no quote, and is not empty.
module _ (g : Group) (p : Plain g) where
  line-Lacks : Lacks 10 (print_group g) × Lacks 13 (print_group g) × Lacks 34 (print_group g)
  line-Lacks =
      let (n, h, c, e) = p in
      let (_, n1, n2, n3) = plain-Lacks g.name n in
      let (_, h1, h2, h3) = plain-Lacks g.hierarchy h in
      let (_, c1, c2, c3) = plain-Lacks g.count c in
      let (_, e1, e2, e3) = plain-Lacks g.enabled e in
      (
        print_group-Lacks 10 g (omega arith) n1 h1 c1 e1,
        print_group-Lacks 13 g (omega arith) n2 h2 c2 e2,
        print_group-Lacks 34 g (omega arith) n3 h3 c3 e3,
      )

  line_filled : is_empty (print_group g) ≡ false
  unfolding print_group
  line_filled = append-filled g.name 9 (g.hierarchy ++ 9 ∷ (g.count ++ 9 ∷ g.enabled))

  read_record-print_group : read_record (print_group g) ≡ some (g.name, g.enabled)
  read_record-print_group =
      rw (contains-Lacks 34 (print_group g) line-Lacks.2, read_record)
        (rw (print_group-split g p) refl)

  -- The line as the first of several.
  read_records-line :
      (lines : List Bytes) (rs : List (Bytes × Bytes))
      → read_records lines ≡ some rs
      → read_records (print_group g ∷ lines) ≡ some ((g.name, g.enabled) ∷ rs)
  unfolding read_records
  read_records-line lines rs e =
      rw (drop_cr-Lacks (print_group g) line-Lacks.1, read_records)
        (rw line_filled (rw read_record-print_group (rw e refl)))

read_records-print_groups :
    (gs : List Group)
    → All Plain gs
    → read_records (split (print_groups gs) 10) ≡ some (map (λ (g : Group). (g.name, g.enabled)) gs)
unfolding print_groups
read_records-print_groups [] h = unfold read_records in refl
read_records-print_groups (g ∷ gs) (p, ps) =
    rw (split-line (print_group g) (print_groups gs) 10 (line-Lacks g p).0)
      (read_records-line g p (split (print_groups gs) 10) _ (read_records-print_groups gs ps))

enabled_names-groups :
    (gs : List Group)
    → enabled_names (map (λ (g : Group). (g.name, g.enabled)) gs) ≡ enabled_groups gs
unfolding enabled_names enabled_groups
enabled_names-groups [] = refl
enabled_names-groups (g ∷ gs) = rw (enabled_names-groups gs)

-- Where no call fails, and the table is as the kernel prints it, four fields a line, none of which
-- holds a tab, newline, carriage return or quote: the boot takes exactly the groups that are
-- enabled, in their order.
pub cgroup_list-enabled :
    (gs : List Group) (m : ℕ) (w : World)
    → All Plain gs
    → w.faults ≡ []
    → w.files (codes "/proc/cgroups") ≡ some (file m (print_groups gs))
    → (cgroup_list w).0 ≡ ok (enabled_groups gs)
unfolding cgroup_list ◌>>=◌
cgroup_list-enabled gs m w h f e =
    rw (read_table w m (print_groups gs) f e)
      (rw (read_records-print_groups gs h) (ap ok (enabled_names-groups gs)))
