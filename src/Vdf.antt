-- ===== src/Vdf.antt =====
-- crates/ludex-core/src/vdf.rs: the `"key" "value"` lines of a VDF document.
pub mod RoundTrip
mod Tests
use ludex.Base.{ℕ, Option, none, some, List, [], ◌∷◌, String}
use ludex.Text.{trim_start, parse_u64}
use ludex.Text.Search.{strip_prefix, split_once, lines, ◌+++◌}

-- The text before the first quote.
abbrev pub closed : Option (String × String) → Option String
closed none = none
closed (some (value, rest)) = some value

abbrev pub unquoted : Option String → Option String
unquoted none = none
unquoted (some after_open) = closed (split_once b'"' after_open)

abbrev pub behind_key : Option String → Option String
behind_key none = none
behind_key (some rest) = unquoted (strip_prefix "\"" (trim_start rest))

unfoldable pub needle : String → String
unfolding ◌+++◌
needle key = "\"" +++ (key +++ "\"")

-- The closure of `values_for_key`.
pub line_value : String → String → Option String
unfolding strip_prefix split_once trim_start needle
line_value key line = behind_key (strip_prefix (needle key) (trim_start line))

abbrev pub cons_some {ℓ} : {A : Type ℓ} → Option A → List A → List A
cons_some none rest = rest
cons_some (some a) rest = a ∷ rest

unfoldable pub filter_map {ℓ κ} : {A : Type ℓ} {B : Type κ} → (A → Option B) → List A → List B
filter_map f [] = []
filter_map f (a ∷ rest) = cons_some (f a) (filter_map f rest)

abbrev pub first {ℓ} : {A : Type ℓ} → List A → Option A
first [] = none
first (a ∷ rest) = some a

-- `values_for_key`, collected: `parse_all_values`.
pub parse_all_values : String → String → List String
unfolding line_value filter_map lines
parse_all_values content key = filter_map (line_value key) (lines content)

unfoldable pub parse_top_level_string : String → String → Option String
unfolding parse_all_values
parse_top_level_string content key = first (parse_all_values content key)

abbrev pub as_u64 : Option String → Option ℕ
as_u64 none = none
as_u64 (some s) = parse_u64 s

unfoldable pub parse_top_level_u64 : String → String → Option ℕ
unfolding parse_top_level_string parse_u64
parse_top_level_u64 content key = as_u64 (parse_top_level_string content key)
