-- ===== src/Text/Search.antt =====
-- What the source uses of Rust's `str` to take a text apart: prefixes, separators and lines.
pub mod Laws
use ludex.Base.{
  ℕ, Bool, true, false, not, ◌&&◌, ◌||◌, Option, none, some, List, [], ◌∷◌, String, nat_beq, Eq,
  ◌==◌, string_eq, map, if◌then◌else◌,
}
use Prim.Native.Char.{Char, code}
use ludex.Text.{is_empty, cons_head, trim_start}

-- `push_str`, and the parts of a `format!` put together.
infixr 65 ◌+++◌
unfoldable pub ◌+++◌ : String → String → String
String.[] +++ t = t
String.◌∷◌ c s +++ t = String.◌∷◌ c (s +++ t)

-- `strip_prefix`.
unfoldable pub strip_prefix : String → String → Option String
strip_prefix String.[] s = some s
strip_prefix (String.◌∷◌ p ps) String.[] = none
strip_prefix (String.◌∷◌ p ps) (String.◌∷◌ c s) =
    let rest = strip_prefix ps s in if nat_beq (code p) (code c) then rest else none

abbrev pub starts_with : String → String → Bool
starts_with pattern s = stripped (strip_prefix pattern s)
  where
    stripped : Option String → Bool
    stripped none = false
    stripped (some rest) = true

abbrev pub cons_text : Char → Option String → Option String
cons_text c none = none
cons_text c (some s) = some (String.◌∷◌ c s)

-- `strip_suffix`.
unfoldable pub strip_suffix : String → String → Option String
strip_suffix suffix String.[] = if suffix == "" then some "" else none
strip_suffix suffix (String.◌∷◌ c s) =
    let rest = strip_suffix suffix s in
    if suffix == String.◌∷◌ c s then some "" else cons_text c rest

-- `contains`, for a text.
unfoldable pub contains_text : String → String → Bool
unfolding strip_prefix
contains_text pattern String.[] = is_empty pattern
contains_text pattern (String.◌∷◌ c s) =
    starts_with pattern (String.◌∷◌ c s) || contains_text pattern s

-- The text behind the first place where a pattern that is not empty stands: `split_once(pattern)?.1`.
unfoldable pub after : String → String → Option String
unfolding strip_prefix
after pattern String.[] = none
after pattern (String.◌∷◌ c s) =
    let later = after pattern s in first (strip_prefix pattern (String.◌∷◌ c s)) later
  where
    first : Option String → Option String → Option String
    first none later = later
    first (some rest) later = some rest

abbrev pub before_first : Char → Option (String × String) → Option (String × String)
before_first c none = none
before_first c (some (head, tail)) = some (String.◌∷◌ c head, tail)

-- `split_once` at a character.
unfoldable pub split_once : ℕ → String → Option (String × String)
split_once sep String.[] = none
split_once sep (String.◌∷◌ c s) =
    let later = split_once sep s in
    if nat_beq (code c) sep then some (String.[], s) else before_first c later

-- `trim_end_matches` of one character.
unfoldable pub trim_end_matches : ℕ → String → String
trim_end_matches sep String.[] = String.[]
trim_end_matches sep (String.◌∷◌ c s) =
    let rest = trim_end_matches sep s in
    if is_empty rest && nat_beq (code c) sep then String.[] else String.◌∷◌ c rest

-- `split_inclusive` at a character: each part but the last keeps its separator, and no part is
-- empty.
unfoldable pub split_inclusive : ℕ → String → List String
split_inclusive sep String.[] = []
split_inclusive sep (String.◌∷◌ c s) =
    let parts = split_inclusive sep s in
    if nat_beq (code c) sep then String.◌∷◌ c String.[] ∷ parts else cons_head c parts

abbrev pub is_newline : String → Bool
is_newline String.[] = false
is_newline (String.◌∷◌ c s) = nat_beq (code c) b'\n' && is_empty s

-- A line without the line end, `\n` or `\r\n`, that it has.
unfoldable pub chomp : String → String
chomp String.[] = String.[]
chomp (String.◌∷◌ c s) =
    let rest = chomp s in
    if is_newline (String.◌∷◌ c s) || (nat_beq (code c) b'\r' && is_newline s)
    then String.[]
    else String.◌∷◌ c rest

-- `lines`.
unfoldable pub lines : String → List String
unfolding split_inclusive chomp
lines s = map chomp (split_inclusive b'\n' s)
