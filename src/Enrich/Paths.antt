-- ===== src/Enrich/Paths.antt =====
-- What the sources use of Rust's `Path`: its components, `starts_with`, `join`.
use ludex.Base.{
  Bool, true, false, not, ◌&&◌, ◌||◌, List, [], ◌∷◌, String, Option, none, some, ◌==◌, string_eq,
  if◌then◌else◌, where_rows,
}
use ludex.Text.{is_empty, split}
use ludex.Text.Search.{◌+++◌, strip_prefix, strip_suffix, starts_with}

-- A component that a path skips: an empty one, or a `.` that is not its first.
abbrev pub is_component : String → Bool
is_component part = not (is_empty part || part == ".")

abbrev pub has_root : String → Bool
has_root path = starts_with "/" path

-- The components: `/` for the root, a `.` only at the start of a path without a root.
abbrev pub components_of : Bool → List String → List String
components_of rooted [] = []
components_of rooted (part ∷ parts) =
    if rooted
    then "/" ∷ where_rows is_component (part ∷ parts)
    else if part == "."
    then "." ∷ where_rows is_component parts
    else where_rows is_component (part ∷ parts)

unfoldable pub components : String → List String
unfolding split strip_prefix
components path = components_of (has_root path) (split b'/' path)

unfoldable pub is_prefix : List String → List String → Bool
is_prefix [] path = true
is_prefix (part ∷ parts) [] = false
is_prefix (part ∷ parts) (at ∷ path) = part == at && is_prefix parts path

-- `Path::starts_with`.
unfoldable pub path_starts_with : String → String → Bool
unfolding components is_prefix
path_starts_with path base = is_prefix (components base) (components path)

abbrev pub ends_with_slash : String → Bool
ends_with_slash s = ends (strip_suffix "/" s)
  where
    ends : Option String → Bool
    ends none = false
    ends (some rest) = true

-- `Path::join`: a path with a root replaces the base, and a `/` is put where none stands.
unfoldable pub join : String → String → String
unfolding ◌+++◌ strip_suffix strip_prefix
join base path =
    if has_root path
    then path
    else if is_empty base || ends_with_slash base
    then base +++ path
    else base +++ ("/" +++ path)
