-- ===== src/Text.antt =====
-- What the source uses of Rust's `str`: `trim`, `parse::<u64>`, and the digit tests, over code points.
pub mod Search
pub mod Ascii
use ludex.Base.{
  ℕ, ◌+◌, ◌-◌, ◌*◌, Bool, true, false, ◌&&◌, ◌||◌, Option, none, some, List, [], ◌∷◌, String, leb,
  nat_beq, ◌==◌, string_eq, if◌then◌else◌,
}
use Prim.Native.Char.{Char, code}

-- `char::is_whitespace`.
abbrev pub is_whitespace : ℕ → Bool
is_whitespace c =
    (leb 9 c && leb c 13)
    || nat_beq c 32
    || nat_beq c 0x85
    || nat_beq c 0xA0
    || nat_beq c 0x1680
    || (leb 0x2000 c && leb c 0x200A)
    || nat_beq c 0x2028
    || nat_beq c 0x2029
    || nat_beq c 0x202F
    || nat_beq c 0x205F
    || nat_beq c 0x3000

abbrev pub is_empty : String → Bool
is_empty String.[] = true
is_empty (String.◌∷◌ c s) = false

unfoldable pub trim_start : String → String
trim_start String.[] = String.[]
trim_start (String.◌∷◌ c s) =
    let rest = trim_start s in if is_whitespace (code c) then rest else String.◌∷◌ c s

-- What stands before a tail that is already trimmed.
abbrev pub before_trimmed : Char → String → String
before_trimmed c rest =
    if is_empty rest && is_whitespace (code c) then String.[] else String.◌∷◌ c rest

unfoldable pub trim_end : String → String
trim_end String.[] = String.[]
trim_end (String.◌∷◌ c s) = before_trimmed c (trim_end s)

unfoldable pub trim : String → String
unfolding trim_start trim_end
trim s = trim_end (trim_start s)

abbrev pub is_ascii_digit : ℕ → Bool
is_ascii_digit c = leb b'0' c && leb c b'9'

unfoldable pub all_digits : String → Bool
all_digits String.[] = true
all_digits (String.◌∷◌ c s) = is_ascii_digit (code c) && all_digits s

-- The value of a run of digits, after what has been read.
unfoldable pub digits_value : ℕ → String → Option ℕ
digits_value n String.[] = some n
digits_value n (String.◌∷◌ c s) =
    let rest = digits_value (n * 10 + (code c - b'0')) s in
    if is_ascii_digit (code c) then rest else none

abbrev pub u64_max : ℕ
u64_max = 18446744073709551615

abbrev pub within_u64 : Option ℕ → Option ℕ
within_u64 none = none
within_u64 (some n) = if leb n u64_max then some n else none

abbrev pub unsigned_value : String → Option ℕ
unsigned_value s = if is_empty s then none else within_u64 (digits_value 0 s)

-- `str::parse::<u64>`: an optional `+`, digits, and no overflow.
unfoldable pub parse_u64 : String → Option ℕ
unfolding digits_value
parse_u64 String.[] = none
parse_u64 (String.◌∷◌ c s) =
    if nat_beq (code c) b'+' then unsigned_value s else unsigned_value (String.◌∷◌ c s)

abbrev pub cons_head : Char → List String → List String
cons_head c [] = String.◌∷◌ c String.[] ∷ []
cons_head c (s ∷ parts) = String.◌∷◌ c s ∷ parts

-- `split` at a character: one part more than separators.
unfoldable pub split : ℕ → String → List String
split sep String.[] = String.[] ∷ []
split sep (String.◌∷◌ c s) =
    let parts = split sep s in if nat_beq (code c) sep then String.[] ∷ parts else cons_head c parts

abbrev pub last_component : Option String → List String → Option String
last_component found [] = found
last_component found (part ∷ parts) =
    last_component (if is_empty part || part == "." then found else some part) parts

abbrev pub unless_parent : Option String → Option String
unless_parent none = none
unless_parent (some name) = if name == ".." then none else some name

-- `Path::file_name`: the last component, unless that is `..`.
unfoldable pub file_name : String → Option String
unfolding split
file_name path = unless_parent (last_component none (split b'/' path))
