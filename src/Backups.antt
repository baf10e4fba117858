-- ===== src/Backups.antt =====
-- crates/ludex-core/src/backup.rs: the names of snapshots, their listing and their pruning. The format of the time
-- stamp, of another package, comes as a parameter, and so does what becomes of each attempt to remove a file.
pub mod Order
pub mod Pruned
pub mod Names
mod Tests
use ludex.Base.{
  ℕ, ◌+◌, max, Bool, true, false, ◌&&◌, ◌||◌, Option, none, some, List, [], ◌∷◌, String, ◌==◌,
  string_eq, leb, ltb, nat_beq, length, drop, map, if◌then◌else◌,
}
use Prim.Native.Char.{Char, code}
use ludex.Text.{is_empty, split}
use ludex.Text.Search.{◌+++◌, strip_prefix, strip_suffix, starts_with}
use ludex.Vdf.{cons_some}

-- `format_backup_filename`, for a formatted stamp.
unfoldable pub format_backup_filename : (ℕ → String) → ℕ → String
unfolding ◌+++◌
format_backup_filename format_stamp at = "ludex-" +++ (format_stamp at +++ "Z.sqlite")

abbrev pub stamp_of : (String → Option ℕ) → Option String → Option ℕ
stamp_of parse_stamp none = none
stamp_of parse_stamp (some stamp) = parse_stamp stamp

abbrev pub without : String → Option String → Option String
without suffix none = none
without suffix (some s) = strip_suffix suffix s

-- `parse_backup_filename`.
unfoldable pub parse_backup_filename : (String → Option ℕ) → String → Option ℕ
unfolding strip_prefix strip_suffix
parse_backup_filename parse_stamp name =
    stamp_of parse_stamp (without "Z" (without ".sqlite" (strip_prefix "ludex-" name)))

abbrev pub last_part : String → List String → String
last_part part [] = part
last_part part (next ∷ parts) = last_part next parts

-- `Path::extension`, of a name without a `/`: none without a dot, or with the one dot at the start.
abbrev pub extension_of : List String → Option String
extension_of [] = none
extension_of (part ∷ []) = none
extension_of (part ∷ next ∷ parts) =
    let found = some (last_part next parts) in
    if is_empty part then (extension_of_hidden parts next) else found
  where
    extension_of_hidden : List String → String → Option String
    extension_of_hidden [] next = none
    extension_of_hidden (other ∷ parts) next = some (last_part other parts)

unfoldable pub extension : String → Option String
unfolding split
extension name = extension_of (split b'.' name)

abbrev pub is_extension : String → Option String → Bool
is_extension e none = false
is_extension e (some x) = x == e

-- The filter of `list_backups`.
unfoldable pub is_backup : String → Bool
unfolding extension strip_prefix
is_backup name = starts_with "ludex-" name && is_extension "sqlite" (extension name)

-- A file of the directory: a name that is not UTF-8 is `none`, and so are metadata that cannot be read.
pub record File : Type 0 where
  pub name : Option String
  pub size_bytes : Option ℕ

pub record BackupEntry : Type 0 where
  pub name : String
  pub timestamp : Option ℕ
  pub size_bytes : ℕ

-- `cmp` of two names is that of their bytes, which is that of their code points.
unfoldable pub text_leb : String → String → Bool
text_leb String.[] t = true
text_leb (String.◌∷◌ c s) String.[] = false
text_leb (String.◌∷◌ c s) (String.◌∷◌ d t) =
    let rest = text_leb s t in
    if ltb (code c) (code d) then true else if nat_beq (code c) (code d) then rest else false

-- A stable sort by name, the greatest first.
unfoldable pub insert_entry : BackupEntry → List BackupEntry → List BackupEntry
unfolding text_leb
insert_entry e [] = e ∷ []
insert_entry e (x ∷ entries) =
    let rest = insert_entry e entries in
    if text_leb x.name e.name then e ∷ x ∷ entries else x ∷ rest

unfoldable pub sort_entries : List BackupEntry → List BackupEntry
unfolding insert_entry
sort_entries [] = []
sort_entries (e ∷ entries) = insert_entry e (sort_entries entries)

abbrev pub with_entry :
    (String → Option ℕ) → String → Option ℕ → Option (List BackupEntry) → Option (List BackupEntry)
with_entry parse_stamp name none rest = none
with_entry parse_stamp name (some size) none = none
with_entry parse_stamp name (some size) (some entries) = some (
    record { name = name; timestamp = parse_backup_filename parse_stamp name; size_bytes = size }
    ∷ entries)

-- The entries as the directory has them; `none` is an I/O error.
unfoldable pub read_entries : (String → Option ℕ) → List File → Option (List BackupEntry)
unfolding is_backup parse_backup_filename
read_entries parse_stamp [] = some []
read_entries parse_stamp (f ∷ files) =
    let rest = read_entries parse_stamp files in named f.name f.size_bytes rest
  where
    named : Option String → Option ℕ → Option (List BackupEntry) → Option (List BackupEntry)
    named none size rest = rest
    named (some name) size rest =
        if is_backup name then with_entry parse_stamp name size rest else rest

abbrev pub sorted_entries : Option (List BackupEntry) → Option (List BackupEntry)
sorted_entries none = none
sorted_entries (some entries) = some (sort_entries entries)

-- `list_backups`; a directory that is not there is one without files.
unfoldable pub list_backups : (String → Option ℕ) → List File → Option (List BackupEntry)
unfolding read_entries sort_entries
list_backups parse_stamp files = sorted_entries (read_entries parse_stamp files)

-- What becomes of `remove_file`: done, the file not found, or another error.
pub data Removal : Type 0 where
  done missing failed : Removal

-- What a pruning answers, and the files that it deleted.
pub record Pruning : Type 0 where
  pub result : Option (List String)
  pub deleted : List String

abbrev pub also_removed : String → Option (List String) → Option (List String)
also_removed name none = none
also_removed name (some removed) = some (name ∷ removed)

abbrev pub removing : Removal → String → Pruning → Pruning
removing Removal.done name rest = record {
  result = also_removed name rest.result;
  deleted = name ∷ rest.deleted;
}
removing Removal.missing name rest = record {
  result = also_removed name rest.result;
  deleted = rest.deleted;
}
removing Removal.failed name rest = record { result = none; deleted = [] }

unfoldable pub remove_all : (String → Removal) → List BackupEntry → Pruning
remove_all outcome [] = record { result = some []; deleted = [] }
remove_all outcome (e ∷ entries) = removing (outcome e.name) e.name (remove_all outcome entries)

abbrev pub prune_listed : (String → Removal) → ℕ → Option (List BackupEntry) → Pruning
prune_listed outcome keep none = record { result = none; deleted = [] }
prune_listed outcome keep (some entries) =
    if leb (length entries) keep
    then record { result = some []; deleted = [] }
    else remove_all outcome (drop keep entries)

-- `prune_backups`.
unfoldable pub prune_backups : (String → Option ℕ) → (String → Removal) → ℕ → List File → Pruning
unfolding list_backups remove_all
prune_backups parse_stamp outcome keep files =
    prune_listed outcome (max keep 1) (list_backups parse_stamp files)
