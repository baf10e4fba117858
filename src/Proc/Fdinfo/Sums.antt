-- ===== src/Proc/Fdinfo/Sums.antt =====
-- crates/ludex-daemon/src/proc/fdinfo.rs: the summary against the sums over all the lines of all the files.
use ludex.Base.{
  ℕ, ◌+◌, ◌≤◌, ◌≡◌, refl, sym, ap, ◌∙◌, min, true, false, not, ◌&&◌, Option, none, some, List, [],
  ◌∷◌, String, arith, ◌==◌, string_eq, if◌then◌else◌, sum_of, Bool-cases, inl, inr,
}
use ludex.Store.Edits.{coalesce}
use ludex.Text.{trim, is_empty, u64_max}
use ludex.Text.Search.{split_once, starts_with, strip_prefix, lines}
use ludex.Proc.Fdinfo.{
  GpuSummary, no_summary, parse_ns, parse_byte_unit, add_memory, add_engine, add_pair, add_line,
  add_lines, accumulate, read_entries, read_fdinfo,
}

abbrev or_zero : Option ℕ → ℕ
or_zero none = 0
or_zero (some n) = n

-- The memory that a line counts.
abbrev memory_in : Option (String × String) → ℕ
memory_in none = 0
memory_in (some (key, value)) =
    if starts_with "drm-memory-" (trim key) then or_zero (parse_byte_unit (trim value)) else 0

-- The driver that a line names.
abbrev driver_in : Option (String × String) → Option String
driver_in none = none
driver_in (some (key, value)) =
    if trim key == "drm-driver" && not (is_empty (trim value)) then some (trim value) else none

abbrev first_driver : List String → Option String
first_driver [] = none
first_driver (line ∷ rest) = coalesce (driver_in (split_once b':' line)) (first_driver rest)

-- The lines of all files that could be read.
abbrev pub all_lines : List (Option String) → List (List String)
all_lines [] = []
all_lines (none ∷ entries) = all_lines entries
all_lines (some content ∷ entries) = lines content ∷ all_lines entries

unfoldable pub memory_of : List String → ℕ
memory_of = sum_of (λ line. memory_in (split_once b':' line))

unfoldable pub driver_of : List (List String) → Option String
driver_of [] = none
driver_of (file ∷ files) = coalesce (first_driver file) (driver_of files)

add_memory-bytes :
    (o : Option ℕ) (g : GpuSummary)
    → g.memory_bytes ≤ u64_max
    → (add_memory o g).memory_bytes ≡ min (g.memory_bytes + or_zero o) u64_max
add_memory-bytes none g le = omega (arith, le)
add_memory-bytes (some n) g le = refl

add_engine-bytes : (o : Option ℕ) (g : GpuSummary) → (add_engine o g).memory_bytes ≡ g.memory_bytes
add_engine-bytes none g = refl
add_engine-bytes (some n) g = refl

add_engine-driver : (o : Option ℕ) (g : GpuSummary) → (add_engine o g).driver ≡ g.driver
add_engine-driver none g = refl
add_engine-driver (some n) g = refl

add_memory-driver : (o : Option ℕ) (g : GpuSummary) → (add_memory o g).driver ≡ g.driver
add_memory-driver none g = refl
add_memory-driver (some n) g = refl

-- The name of the driver is no counter of memory.
driver_key-memory :
    (key : String) → (key == "drm-driver") ≡ true → starts_with "drm-memory-" key ≡ false
unfolding strip_prefix
driver_key-memory key e = rw ((string_eq.beq_iff key "drm-driver").0 e) refl

add_pair-memory :
    (key value : String) (g : GpuSummary)
    → g.memory_bytes ≤ u64_max
    → (add_pair key value g).memory_bytes
      ≡ min
          (g.memory_bytes
            + (if starts_with "drm-memory-" key then or_zero (parse_byte_unit value) else 0))
          u64_max
add_pair-memory key value g le = elim (Bool-cases (key == "drm-driver")) [
  | inl named ↦ rw (named, driver_key-memory key named) (ground (arith, le))
  | inr unnamed ↦ rw unnamed (elim (Bool-cases (starts_with "drm-memory-" key)) [
    | inl memory ↦ rw memory (add_memory-bytes (parse_byte_unit value) g le)
    | inr other ↦ rw other (ground (arith, le, add_engine-bytes (parse_ns value) g))
  ])
]

add_pair-driver :
    (key value : String) (g : GpuSummary)
    → (add_pair key value g).driver
      ≡ coalesce g.driver (if key == "drm-driver" && not (is_empty value) then some value else none)
add_pair-driver key value g = elim (Bool-cases (key == "drm-driver")) [
  | inl named ↦ rw named (ground arith)
  | inr unnamed ↦ rw unnamed (
      ground
        (arith, add_memory-driver (parse_byte_unit value) g, add_engine-driver (parse_ns value) g))
]

add_line-memory :
    (p : Option (String × String)) (g : GpuSummary)
    → g.memory_bytes ≤ u64_max
    → (add_line p g).memory_bytes ≡ min (g.memory_bytes + memory_in p) u64_max
add_line-memory none g le = omega (arith, le)
add_line-memory (some (key, value)) g le = add_pair-memory (trim key) (trim value) g le

add_line-driver :
    (p : Option (String × String)) (g : GpuSummary)
    → (add_line p g).driver ≡ coalesce g.driver (driver_in p)
add_line-driver none g = ground arith
add_line-driver (some (key, value)) g = add_pair-driver (trim key) (trim value) g

add_lines-memory :
    (ls : List String) (g : GpuSummary)
    → g.memory_bytes ≤ u64_max
    → (add_lines ls g).memory_bytes ≡ min (g.memory_bytes + memory_of ls) u64_max
unfolding memory_of
add_lines-memory [] g le = omega (arith, le)
add_lines-memory (line ∷ ls) g le =
    let next = add_line (split_once b':' line) g in
    let step = add_line-memory (split_once b':' line) g le in
    omega (arith, step, add_lines-memory ls next (omega (arith, step)))

coalesce_assoc : (o p q : Option String) → coalesce (coalesce o p) q ≡ coalesce o (coalesce p q)
coalesce_assoc none p q = refl
coalesce_assoc (some a) p q = refl

coalesce-none : (o : Option String) → coalesce o none ≡ o
coalesce-none none = refl
coalesce-none (some a) = refl

add_lines-driver :
    (ls : List String) (g : GpuSummary)
    → (add_lines ls g).driver ≡ coalesce g.driver (first_driver ls)
add_lines-driver [] g = sym (coalesce-none g.driver)
add_lines-driver (line ∷ ls) g =
    add_lines-driver ls (add_line (split_once b':' line) g)
    ∙ ap (λ o. coalesce o (first_driver ls)) (add_line-driver (split_once b':' line) g)
    ∙ coalesce_assoc g.driver (driver_in (split_once b':' line)) (first_driver ls)

read_entries-sums :
    (entries : List (Option String)) (g : GpuSummary)
    → g.memory_bytes ≤ u64_max
    → ((read_entries entries g).memory_bytes
        ≡ min (g.memory_bytes + sum_of memory_of (all_lines entries)) u64_max)
      × ((read_entries entries g).driver ≡ coalesce g.driver (driver_of (all_lines entries)))
unfolding read_entries accumulate driver_of
read_entries-sums [] g le = (omega (arith, le), sym (coalesce-none g.driver))
read_entries-sums (none ∷ entries) g le = read_entries-sums entries g le
read_entries-sums (some content ∷ entries) g le =
    let step = add_lines-memory (lines content) g le in
    let later = read_entries-sums entries (add_lines (lines content) g) (omega (arith, step)) in
    (
      omega (arith, step, later.0),
      later.1
          ∙ ap (λ o. coalesce o (driver_of (all_lines entries)))
              (add_lines-driver (lines content) g)
          ∙ coalesce_assoc g.driver (first_driver (lines content)) (driver_of (all_lines entries)),
    )

-- The memory of a process is the sum over all the lines of all the files that could be read, up to the greatest `u64`
-- however the sums on the way stop there, and its driver is the first that a line names.
pub read_fdinfo-Sums :
    (entries : List (Option String))
    → ((read_fdinfo entries).memory_bytes ≡ min (sum_of memory_of (all_lines entries)) u64_max)
      × ((read_fdinfo entries).driver ≡ driver_of (all_lines entries))
unfolding read_fdinfo
read_fdinfo-Sums entries =
    let sums = read_entries-sums entries no_summary (omega arith) in (omega (arith, sums.0), sums.1)
