-- ===== src/Enrich/Pe.antt =====
-- crates/ludex-enrich/src/sources/pe.rs: the source that reads the version resource of a Windows executable. What the
-- parser of such files, of another package, makes of one comes as an argument.
use ludex.Base.{
  ℕ, Bool, false, not, ◌&&◌, Option, none, some, List, [], ◌∷◌, String, ◌==◌, nat_eq, string_eq,
  ltb, is_none, if◌then◌else◌,
}
use ludex.Types.{Application, IdentityUpdate}
use ludex.Text.{trim, is_empty, file_name}
use ludex.Store.Edits.{coalesce}
use ludex.Backups.{extension}
use ludex.Enrich.{no_update, ◌>>=◌}
use ludex.Enrich.Lutris.{same_ignoring_case}

abbrev pub max_pe_read_bytes : ℕ
max_pe_read_bytes = 67108864

pub record Language : Type 0 where
  pub lang_id : ℕ
  pub charset_id : ℕ

-- The translations of a resource, and the strings of one.
pub record VersionInfo : Type 0 where
  pub translation : List Language
  pub strings : Language → List (String × String)

-- `non_empty`.
unfoldable pub non_empty : String → Option String
unfolding trim
non_empty s = if is_empty (trim s) then none else some (trim s)

abbrev pub find_lang : ℕ → List Language → Option Language
find_lang id [] = none
find_lang id (l ∷ langs) = if l.lang_id == id then some l else find_lang id langs

abbrev pub first_lang : List Language → Option Language
first_lang [] = none
first_lang (l ∷ langs) = some l

-- The variables that the callback sets; a later string of a name replaces an earlier one.
pub record Strings : Type 0 where
  pub product_name : Option String
  pub file_description : Option String
  pub publisher : Option String
  pub product_version : Option String
  pub file_version : Option String

abbrev pub set_string : String → String → Strings → Strings
set_string k v found =
    if k == "ProductName"
    then record found { product_name = non_empty v }
    else if k == "FileDescription"
    then record found { file_description = non_empty v }
    else if k == "CompanyName"
    then record found { publisher = non_empty v }
    else if k == "ProductVersion"
    then record found { product_version = non_empty v }
    else if k == "FileVersion"
    then record found { file_version = non_empty v }
    else found

abbrev pub set_strings : List (String × String) → Strings → Strings
set_strings [] found = found
set_strings ((k, v) ∷ rest) found = set_strings rest (set_string k v found)

abbrev pub no_strings : Strings
no_strings = record {
  product_name = none;
  file_description = none;
  publisher = none;
  product_version = none;
  file_version = none;
}

abbrev pub strings_update : Option String → Option String → Option String → Option IdentityUpdate
strings_update product_name publisher version =
    if is_none product_name && is_none publisher && is_none version
    then none
    else some
        (record no_update { product_name = product_name; publisher = publisher; version = version })

abbrev pub found_update : Strings → Option IdentityUpdate
found_update found =
    strings_update (coalesce found.product_name found.file_description) found.publisher
      (coalesce found.product_version found.file_version)

-- `extract_from_version_info`.
unfoldable pub extract_from_version_info : VersionInfo → Option IdentityUpdate
unfolding non_empty
extract_from_version_info vi = do
  lang ← coalesce (find_lang 1033 vi.translation) (first_lang vi.translation)
  found_update (set_strings (vi.strings lang) no_strings)

-- A file: its size, and its resource as a 64-bit and as a 32-bit executable.
pub record PeFile : Type 0 where
  pub len : ℕ
  pub pe64 : Option VersionInfo
  pub pe32 : Option VersionInfo

abbrev pub extract : Option VersionInfo → Option IdentityUpdate
extract none = none
extract (some vi) = extract_from_version_info vi

-- `read_version_info`.
unfoldable pub read_version_info : PeFile → Option IdentityUpdate
unfolding extract_from_version_info
read_version_info file =
    if ltb max_pe_read_bytes file.len
    then none
    else coalesce (extract file.pe64) (extract file.pe32)

abbrev pub is_exe : Option String → Bool
is_exe none = false
is_exe (some e) = same_ignoring_case e "exe"

abbrev pub extension_in : Option String → Option String
extension_in none = none
extension_in (some name) = extension name

-- `enrich`; the file that stands at a path comes from a function.
unfoldable pub enrich : (String → Option PeFile) → Application → Option IdentityUpdate
unfolding extension file_name same_ignoring_case read_version_info
enrich files app = do
  exe ← app.executable_path
  if not (is_exe (extension_in (file_name exe)))
      then none
      else (do file ← files exe; read_version_info file)
