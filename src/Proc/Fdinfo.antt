-- ===== src/Proc/Fdinfo.antt =====
-- crates/ludex-daemon/src/proc/fdinfo.rs: the counters of the graphics driver over all file descriptors of a process.
pub mod Sums
use ludex.Base.{
  ℕ, ◌+◌, ◌*◌, min, Bool, true, false, not, ◌&&◌, ◌||◌, Option, none, some, List, [], ◌∷◌, String,
  Eq, ◌==◌, string_eq, is_none, if◌then◌else◌,
}
use ludex.Text.{trim, is_empty, parse_u64, u64_max}
use ludex.Text.Search.{split_once, strip_prefix, strip_suffix, starts_with, lines}

pub record GpuSummary : Type 0 where
  pub driver : Option String
  pub memory_bytes : ℕ
  pub engine_nanoseconds : ℕ

-- `GpuSummary::default()`.
abbrev pub no_summary : GpuSummary
no_summary = record { driver = none; memory_bytes = 0; engine_nanoseconds = 0 }

-- `u64::saturating_add`.
abbrev pub plus_u64 : ℕ → ℕ → ℕ
plus_u64 a b = min (a + b) u64_max

abbrev pub multiplier_of : String → Option ℕ
multiplier_of unit =
    if unit == "B" || unit == "bytes"
    then some 1
    else if unit == "kB" || unit == "KB" || unit == "KiB"
    then some 1024
    else if unit == "MB" || unit == "MiB"
    then some 1048576
    else if unit == "GB" || unit == "GiB"
    then some 1073741824
    else none

abbrev pub times_unit : Option ℕ → Option ℕ → Option ℕ
times_unit none multiplier = none
times_unit (some n) none = none
times_unit (some n) (some multiplier) = some (min (n * multiplier) u64_max)

abbrev pub bytes_of : Option (String × String) → Option ℕ
bytes_of none = none
bytes_of (some (num, unit)) = times_unit (parse_u64 num) (multiplier_of (trim unit))

-- `parse_byte_unit`.
unfoldable pub parse_byte_unit : String → Option ℕ
unfolding split_once parse_u64 trim
parse_byte_unit value = bytes_of (split_once b' ' value)

abbrev pub ns_of : Option (String × String) → Option ℕ
ns_of none = none
ns_of (some (num, unit)) = if trim unit == "ns" then parse_u64 num else none

-- `parse_ns`.
unfoldable pub parse_ns : String → Option ℕ
unfolding split_once parse_u64 trim
parse_ns value = ns_of (split_once b' ' value)

abbrev pub ends_with : String → String → Bool
ends_with suffix s = not (is_none (strip_suffix suffix s))

abbrev pub add_memory : Option ℕ → GpuSummary → GpuSummary
add_memory none g = g
add_memory (some bytes) g = record g { memory_bytes = plus_u64 g.memory_bytes bytes }

abbrev pub add_engine : Option ℕ → GpuSummary → GpuSummary
add_engine none g = g
add_engine (some ns) g = record g { engine_nanoseconds = plus_u64 g.engine_nanoseconds ns }

abbrev pub add_pair : String → String → GpuSummary → GpuSummary
add_pair key value g =
    if key == "drm-driver"
    then (if is_none g.driver && not (is_empty value) then record g { driver = some value } else g)
    else if starts_with "drm-memory-" key
    then add_memory (parse_byte_unit value) g
    else if starts_with "drm-engine-" key && not (ends_with "-capacity" key)
    then add_engine (parse_ns value) g
    else g

abbrev pub add_line : Option (String × String) → GpuSummary → GpuSummary
add_line none g = g
add_line (some (key, value)) g = add_pair (trim key) (trim value) g

abbrev pub add_lines : List String → GpuSummary → GpuSummary
add_lines [] g = g
add_lines (line ∷ rest) g = add_lines rest (add_line (split_once b':' line) g)

-- `accumulate`.
unfoldable pub accumulate : String → GpuSummary → GpuSummary
unfolding lines split_once trim parse_byte_unit parse_ns strip_prefix strip_suffix
accumulate content g = add_lines (lines content) g

-- The loop of `read`: an entry that cannot be read is `none`.
unfoldable pub read_entries : List (Option String) → GpuSummary → GpuSummary
unfolding accumulate
read_entries [] g = g
read_entries (none ∷ entries) g = read_entries entries g
read_entries (some content ∷ entries) g = read_entries entries (accumulate content g)

-- `read`.
unfoldable pub read_fdinfo : List (Option String) → GpuSummary
unfolding read_entries
read_fdinfo entries = read_entries entries no_summary
