-- ===== src/Enrich/Gog.antt =====
-- crates/ludex-enrich/src/sources/gog.rs: the source that looks for GOG's file near an executable. What the parser of
-- JSON makes of each file comes as an argument.
use ludex.Base.{
  ℕ, zero, suc, Bool, false, ◌&&◌, Option, none, some, List, [], ◌∷◌, String, ◌==◌, string_eq,
  if◌then◌else◌,
}
use ludex.Types.{Application, IdentityUpdate}
use ludex.Text.{trim, is_empty}
use ludex.Text.Search.{starts_with, strip_prefix}
use ludex.Store.Edits.{coalesce}
use ludex.Backups.{extension}
use ludex.Enrich.{no_update, ◌>>=◌}
use ludex.Enrich.Paths.{components}
use ludex.Enrich.Lutris.{same_ignoring_case}

abbrev pub parent_walk_depth : ℕ
parent_walk_depth = 3

-- A JSON value: a number is its text.
pub data JsonValue : Type 0 where
  string number : String → JsonValue
  other : JsonValue

pub record GogInfo : Type 0 where
  pub name : Option String
  pub version : Option JsonValue

-- An entry of a directory: a name that is UTF-8, and what the file holds where it can be read and parsed.
pub record Entry : Type 0 where
  pub name : Option String
  pub info : Option GogInfo

-- `value_to_version_string`.
unfoldable pub value_to_version_string : JsonValue → Option String
unfolding trim
value_to_version_string (JsonValue.string s) = if is_empty (trim s) then none else some s
value_to_version_string (JsonValue.number n) = some n
value_to_version_string JsonValue.other = none

abbrev pub is_info : Option String → Bool
is_info none = false
is_info (some e) = same_ignoring_case e "info"

abbrev pub is_gog_name : String → Bool
is_gog_name name = starts_with "goggame-" name && is_info (extension name)

abbrev pub version_of : Option JsonValue → Option String
version_of none = none
version_of (some v) = value_to_version_string v

-- What a file of the right name ends the search with: `none` is to go on.
abbrev pub named_update : String → GogInfo → Option (Option IdentityUpdate)
named_update product_name info =
    if is_empty (trim product_name)
    then none
    else some (
        some (record no_update {
          product_name = some product_name;
          version = version_of info.version;
        }))

abbrev pub info_update : Option GogInfo → Option (Option IdentityUpdate)
info_update none = some none
info_update (some info) = elim (info.name) [
  | none ↦ some none
  | some product_name ↦ named_update product_name info
]

abbrev pub entry_update : Option String → Option GogInfo → Option (Option IdentityUpdate)
entry_update none info = none
entry_update (some name) info = if is_gog_name name then info_update info else none

abbrev pub found_or {ℓ} : {A : Type ℓ} → Option A → A → A
found_or none rest = rest
found_or (some found) rest = found

abbrev pub try_entries : List Entry → Option IdentityUpdate
try_entries [] = none
try_entries (e ∷ entries) = found_or (entry_update e.name e.info) (try_entries entries)

-- `try_directory`; a directory is its components.
unfoldable pub try_directory :
    (List String → Option (List Entry)) → List String → Option IdentityUpdate
unfolding extension strip_prefix same_ignoring_case value_to_version_string trim
try_directory read_dir dir = do entries ← read_dir dir; try_entries entries

abbrev pub without_last : String → List String → List String
without_last part [] = []
without_last part (next ∷ parts) = part ∷ without_last next parts

-- `Path::parent`, of the components: the root has none, and neither has an empty path.
abbrev pub parent_dir : List String → Option (List String)
parent_dir [] = none
parent_dir (part ∷ []) = if part == "/" then none else some []
parent_dir (part ∷ next ∷ parts) = some (without_last part (next ∷ parts))

-- The loop of `enrich`: the directory, and its parents.
unfoldable pub try_parents :
    (List String → Option (List Entry)) → ℕ → List String → Option IdentityUpdate
unfolding try_directory
try_parents read_dir zero dir = none
try_parents read_dir (suc depth) dir =
    coalesce (try_directory read_dir dir)
      (elim (parent_dir dir) [ none ↦ none | some above ↦ try_parents read_dir depth above ])

-- `enrich`.
unfoldable pub enrich : (List String → Option (List Entry)) → Application → Option IdentityUpdate
unfolding components try_parents
enrich read_dir app = do
  exe ← app.executable_path
  start ← parent_dir (components exe)
  try_parents read_dir parent_walk_depth start
