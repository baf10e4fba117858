-- ===== src/Backups/Tests.antt =====
-- A directory with snapshots, and the theorems at it.
use ludex.Base.{
  ℕ, ◌≡◌, refl, true, Option, none, some, List, [], ◌∷◌, String, ◌==◌, string_eq, if◌then◌else◌,
}
use ludex.Settings.{to_text}
use ludex.Text.{parse_u64}
use ludex.Backups.{
  File, Removal, is_backup, extension, format_backup_filename, parse_backup_filename, list_backups,
  prune_backups,
}
use ludex.Backups.Pruned.{Pruned, prune_backups-Pruned}
use ludex.Backups.Names.{parse_backup_filename-format}

abbrev files : List File
files =
    record { name = some "ludex-20260101T000000Z.sqlite"; size_bytes = some 4 }
    ∷ record { name = some "notes.sqlite"; size_bytes = some 7 }
    ∷ record { name = none; size_bytes = none }
    ∷ record { name = some "ludex-20260301T000000Z.sqlite"; size_bytes = some 5 }
    ∷ record { name = some "ludex-x.sqlite-wal"; size_bytes = none }
    ∷ record { name = some "ludex-20260201T000000Z.sqlite"; size_bytes = some 6 }
    ∷ []

-- The second snapshot was removed by another pruning.
abbrev outcome : String → Removal
outcome name = if name == "ludex-20260201T000000Z.sqlite" then Removal.missing else Removal.done

abbrev no_stamp : String → Option ℕ
no_stamp s = none

oldest_deleted : prune_backups no_stamp outcome 0 files ≡ record {
  result = some ("ludex-20260201T000000Z.sqlite" ∷ "ludex-20260101T000000Z.sqlite" ∷ []);
  deleted = "ludex-20260101T000000Z.sqlite" ∷ [];
}
unfolding prune_backups
oldest_deleted = refl

-- A name without a time stands before the names with one: it is kept, and the snapshots are deleted.
unknown_kept :
    prune_backups no_stamp outcome 0
      (record { name = some "ludex-unknownZ.sqlite"; size_bytes = some 3 } ∷ files)
    ≡ record {
      result = some (
          "ludex-20260301T000000Z.sqlite" ∷ "ludex-20260201T000000Z.sqlite"
          ∷ "ludex-20260101T000000Z.sqlite" ∷ []);
      deleted = "ludex-20260301T000000Z.sqlite" ∷ "ludex-20260101T000000Z.sqlite" ∷ [];
    }
unfolding prune_backups
unknown_kept = refl

hidden_extension : extension ".sqlite" ≡ none
unfolding extension
hidden_extension = refl

prune_backups-Pruned_example :
    Pruned 1 (list_backups no_stamp files) (prune_backups no_stamp outcome 0 files)
prune_backups-Pruned_example = prune_backups-Pruned no_stamp outcome 0 files

parse_backup_filename-format_example :
    (parse_backup_filename parse_u64 (format_backup_filename to_text 20260423) ≡ some 20260423)
    × (is_backup (format_backup_filename to_text 20260423) ≡ true)
unfolding to_text parse_u64
parse_backup_filename-format_example = parse_backup_filename-format to_text parse_u64 20260423 refl
