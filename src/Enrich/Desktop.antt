-- ===== src/Enrich/Desktop.antt =====
-- crates/ludex-enrich/src/sources/desktop.rs: the source that reads `.desktop` entries. What the parser of another
-- package makes of each file, and the canonical form of a path, come as arguments.
use ludex.Base.{
  Bool, true, false, ◌&&◌, Option, none, some, List, [], ◌∷◌, String, ◌==◌, string_eq,
  if◌then◌else◌,
}
use ludex.Types.{Application, IdentityUpdate, LauncherType}
use ludex.Text.Search.{◌+++◌}
use ludex.Proc.Tree.{split_whitespace}
use ludex.Store.Edits.{coalesce}
use ludex.Backups.{extension}
use ludex.Enrich.{no_update, ◌>>=◌}
use ludex.Enrich.Paths.{components}

pub record DesktopEntry : Type 0 where
  pub name : Option String
  pub exec : Option String
  pub try_exec : Option String

-- A file of a directory, by its name; `none` for the entry is one that cannot be read or parsed.
pub record DesktopFile : Type 0 where
  pub file_name : String
  pub entry : Option DesktopEntry

abbrev pub first_token : List String → Option String
first_token [] = none
first_token (token ∷ rest) = some token

abbrev pub canonical : (String → Option String) → String → String
canonical canonicalize path = elim (canonicalize path) [ none ↦ path | some real ↦ real ]

abbrev pub same_components : List String → List String → Bool
same_components [] [] = true
same_components [] (b ∷ bs) = false
same_components (a ∷ rest) [] = false
same_components (a ∷ rest) (b ∷ bs) = a == b && same_components rest bs

-- `paths_canonically_equal`: paths are compared by their components.
unfoldable pub paths_canonically_equal : (String → Option String) → String → String → Bool
unfolding components
paths_canonically_equal canonicalize a b =
    same_components (components (canonical canonicalize a)) (components (canonical canonicalize b))

abbrev pub token_matches : (String → Option String) → String → Option String → Bool
token_matches canonicalize target_exe none = false
token_matches canonicalize target_exe (some token) =
    paths_canonically_equal canonicalize token target_exe

abbrev pub command_matches : (String → Option String) → String → Option String → Bool
command_matches canonicalize target_exe none = false
command_matches canonicalize target_exe (some exec_field) =
    token_matches canonicalize target_exe (first_token (split_whitespace exec_field))

-- `desktop_exec_matches`.
unfoldable pub desktop_exec_matches : (String → Option String) → Option DesktopEntry → String → Bool
unfolding split_whitespace paths_canonically_equal
desktop_exec_matches canonicalize none target_exe = false
desktop_exec_matches canonicalize (some entry) target_exe =
    command_matches canonicalize target_exe (coalesce entry.exec entry.try_exec)

-- `try_desktop_file`.
unfoldable pub try_desktop_file : Option DesktopEntry → Option IdentityUpdate
try_desktop_file file = do
  entry ← file
  name ← entry.name
  some (record no_update { product_name = some name })

abbrev pub is_desktop : Option String → Bool
is_desktop none = false
is_desktop (some e) = e == "desktop"

abbrev pub entry_named : String → List DesktopFile → Option DesktopEntry
entry_named file_name [] = none
entry_named file_name (f ∷ files) =
    if f.file_name == file_name then f.entry else entry_named file_name files

-- A directory; `none` is one that cannot be read.
abbrev pub DesktopDir : Type 0
DesktopDir = Option (List DesktopFile)

abbrev pub flatpak_in : String → List (List DesktopFile) → Option IdentityUpdate
flatpak_in target_filename [] = none
flatpak_in target_filename (dir ∷ dirs) =
    coalesce (try_desktop_file (entry_named target_filename dir)) (flatpak_in target_filename dirs)

-- `enrich_flatpak`: a file is opened by its name, whether or not its directory can be listed.
unfoldable pub enrich_flatpak : List (List DesktopFile) → Application → Option IdentityUpdate
unfolding ◌+++◌ try_desktop_file
enrich_flatpak dirs app = flatpak_in (app.launcher_id +++ ".desktop") dirs

abbrev pub native_in : (String → Option String) → String → List DesktopFile → Option IdentityUpdate
native_in canonicalize exe [] = none
native_in canonicalize exe (f ∷ files) =
    let rest = native_in canonicalize exe files in
    if is_desktop (extension f.file_name) && desktop_exec_matches canonicalize f.entry exe
    then coalesce (try_desktop_file f.entry) rest
    else rest

abbrev pub native_dirs : (String → Option String) → String → List DesktopDir → Option IdentityUpdate
native_dirs canonicalize exe [] = none
native_dirs canonicalize exe (none ∷ dirs) = native_dirs canonicalize exe dirs
native_dirs canonicalize exe (some files ∷ dirs) =
    coalesce (native_in canonicalize exe files) (native_dirs canonicalize exe dirs)

-- `enrich_native`.
unfoldable pub enrich_native :
    (String → Option String) → List DesktopDir → Application → Option IdentityUpdate
unfolding extension desktop_exec_matches try_desktop_file
enrich_native canonicalize dirs app = do
  exe ← app.executable_path
  native_dirs canonicalize exe dirs

-- `enrich`: the directories as they are listed, and the files that can be opened in them.
unfoldable pub enrich :
    (String → Option String)
    → List DesktopDir
    → List (List DesktopFile)
    → Application
    → Option IdentityUpdate
unfolding enrich_flatpak enrich_native
enrich canonicalize dirs openable app = elim (app.launcher_type) [
  | LauncherType.flatpak ↦ enrich_flatpak openable app
  | LauncherType.native ↦ enrich_native canonicalize dirs app
  | _ ↦ none
]
