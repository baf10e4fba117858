-- ===== src/Backups/Pruned.antt =====
-- crates/ludex-core/src/backup.rs, `prune_backups`: what a pruning deletes and what it keeps.
use ludex.Base.{
  ℕ, zero, suc, ◌≡◌, refl, ap, ◌⊎◌, inl, inr, max, true, Option, none, some, List, [], ◌∷◌, String,
  arith, leb, length, drop, take, map, Bool-cases, Option-cases, All, All-map, All-map₂, string_eq,
}
use ludex.Base.Table.{contains}
use ludex.Backups.{
  File, BackupEntry, Removal, Pruning, is_backup, read_entries, with_entry, list_backups,
  sorted_entries, sort_entries, text_leb, remove_all, removing, prune_listed, also_removed,
  prune_backups,
}
use ludex.Backups.Order.{Newest, sort-Newest, sort-All}

abbrev pub names : List BackupEntry → List String
names = map (λ (e : BackupEntry). e.name)

-- What a pruning may do to a listing of which it keeps some first entries: it deletes among the others only, it
-- names all the others where it succeeds, and it keeps the newest.
pub record Spares (keep : ℕ) (entries : List BackupEntry) (p : Pruning) : Type 0 where
  pub backups : All (λ e. is_backup e.name ≡ true) entries
  pub newest :
      All (λ x. All (λ y. text_leb x.name y.name ≡ true) (take keep entries)) (drop keep entries)
  pub deleted : All (λ name. contains (names (drop keep entries)) name ≡ true) p.deleted
  pub result : (p.result ≡ none) ⊎ (p.result ≡ some (names (drop keep entries)))

abbrev pub Pruned : ℕ → Option (List BackupEntry) → Pruning → Type 0
Pruned keep none p = (p.result ≡ none) × (p.deleted ≡ [])
Pruned keep (some entries) p = Spares keep entries p

abbrev AllBackups : Option (List BackupEntry) → Type 0
AllBackups none = Unit
AllBackups (some entries) = All (λ e. is_backup e.name ≡ true) entries

with_entry-AllBackups :
    (parse_stamp : String → Option ℕ) (name : String) (size : Option ℕ)
    (rest : Option (List BackupEntry))
    → is_backup name ≡ true
    → AllBackups rest
    → AllBackups (with_entry parse_stamp name size rest)
with_entry-AllBackups parse_stamp name none rest h all = tt
with_entry-AllBackups parse_stamp name (some size) none h all = tt
with_entry-AllBackups parse_stamp name (some size) (some entries) h all = (h, all)

read-AllBackups :
    (parse_stamp : String → Option ℕ) (files : List File)
    → AllBackups (read_entries parse_stamp files)
unfolding read_entries
read-AllBackups parse_stamp [] = tt
read-AllBackups parse_stamp (f ∷ files) = elim (Option-cases f.name) [
  | inl e ↦ rw e (read-AllBackups parse_stamp files)
  | inr (name, e) ↦ rw e (elim (Bool-cases (is_backup name)) [
    | inl listed ↦ rw listed (
        with_entry-AllBackups parse_stamp name f.size_bytes (read_entries parse_stamp files) listed
          (read-AllBackups parse_stamp files))
    | inr other ↦ rw other (read-AllBackups parse_stamp files)
  ])
]

all_unit : (entries : List BackupEntry) → All (λ x. Unit {0}) entries
all_unit [] = tt
all_unit (e ∷ entries) = (tt, all_unit entries)

All-drop :
    (P : BackupEntry → Type 0) (n : ℕ) (entries : List BackupEntry)
    → All P entries
    → All P (drop n entries)
All-drop P zero entries h = h
All-drop P (suc n) [] h = tt
All-drop P (suc n) (e ∷ entries) h = All-drop P n entries h.1

drop_short :
    (n : ℕ) (entries : List BackupEntry) → leb (length entries) n ≡ true → drop n entries ≡ []
drop_short zero [] h = refl
drop_short zero (e ∷ entries) h = ground (arith, h)
drop_short (suc n) [] h = refl
drop_short (suc n) (e ∷ entries) h = drop_short n entries (ground (arith, h))

drop-Newest :
    (keep : ℕ) (entries : List BackupEntry)
    → Newest entries
    → All (λ x. All (λ y. text_leb x.name y.name ≡ true) (take keep entries)) (drop keep entries)
drop-Newest zero entries h = all_unit entries
drop-Newest (suc keep) [] h = tt
drop-Newest (suc keep) (e ∷ entries) h =
    All-map₂ (λ (x : BackupEntry). text_leb x.name e.name ≡ true)
      (λ (x : BackupEntry).
        All (λ (y : BackupEntry). text_leb x.name y.name ≡ true) (take keep entries))
      (λ (x : BackupEntry).
        All (λ (y : BackupEntry). text_leb x.name y.name ≡ true) (e ∷ take keep entries))
      (drop keep entries) (λ x le all. (le, all))
      (All-drop (λ x. text_leb x.name e.name ≡ true) keep entries h.0)
      (drop-Newest keep entries h.1)

remove_all-deleted :
    (outcome : String → Removal) (entries : List BackupEntry)
    → All (λ name. contains (names entries) name ≡ true) (remove_all outcome entries).deleted
unfolding remove_all contains
remove_all-deleted outcome [] = tt
remove_all-deleted outcome (e ∷ entries) =
    removing_deleted (outcome e.name) (remove_all-deleted outcome entries)
  where
    later :
        All (λ name. contains (names entries) name ≡ true) (remove_all outcome entries).deleted
        → All
            (λ name. contains (names (e ∷ entries)) name ≡ true)
            (remove_all outcome entries).deleted
    later =
        All-map (λ name. contains (names entries) name ≡ true)
          (λ name. contains (names (e ∷ entries)) name ≡ true) (remove_all outcome entries).deleted
          (λ name h. ground (arith, h))

    removing_deleted :
        (r : Removal)
        → All (λ name. contains (names entries) name ≡ true) (remove_all outcome entries).deleted
        → All
            (λ name. contains (names (e ∷ entries)) name ≡ true)
            (removing r e.name (remove_all outcome entries)).deleted
    removing_deleted Removal.done h = (ground (arith, string_eq.beq_iff e.name e.name), later h)
    removing_deleted Removal.missing h = later h
    removing_deleted Removal.failed h = tt

remove_all-result :
    (outcome : String → Removal) (entries : List BackupEntry)
    → ((remove_all outcome entries).result ≡ none)
      ⊎ ((remove_all outcome entries).result ≡ some (names entries))
unfolding remove_all
remove_all-result outcome [] = inr refl
remove_all-result outcome (e ∷ entries) =
    removing_result (outcome e.name) (remove_all-result outcome entries)
  where
    removing_result :
        (r : Removal)
        → ((remove_all outcome entries).result ≡ none)
          ⊎ ((remove_all outcome entries).result ≡ some (names entries))
        → ((removing r e.name (remove_all outcome entries)).result ≡ none)
          ⊎ ((removing r e.name (remove_all outcome entries)).result
              ≡ some (e.name ∷ names entries))
    removing_result Removal.done (inl h) = inl (ap (also_removed e.name) h)
    removing_result Removal.done (inr h) = inr (ap (also_removed e.name) h)
    removing_result Removal.missing (inl h) = inl (ap (also_removed e.name) h)
    removing_result Removal.missing (inr h) = inr (ap (also_removed e.name) h)
    removing_result Removal.failed h = inl refl

listed-Spares :
    (outcome : String → Removal) (keep : ℕ) (entries : List BackupEntry)
    → All (λ e. is_backup e.name ≡ true) entries
    → Newest entries
    → Spares keep entries (prune_listed outcome keep (some entries))
listed-Spares outcome keep entries backups sorted = elim (Bool-cases (leb (length entries) keep)) [
  | inl short ↦ rw short (record {
    backups = backups;
    newest = drop-Newest keep entries sorted;
    deleted = tt;
    result = inr (rw (drop_short keep entries short) refl);
  })
  | inr long ↦ rw long (record {
    backups = backups;
    newest = drop-Newest keep entries sorted;
    deleted = remove_all-deleted outcome (drop keep entries);
    result = remove_all-result outcome (drop keep entries);
  })
]

-- Whatever becomes of each removal, a pruning of a directory deletes only files that the listing takes for backups,
-- and among them only those behind the first `keep`, or the first one for a `keep` of zero, none of which has a
-- lesser name than one that it may delete; where it succeeds, it answers with the names of all those behind. The
-- order is that of the names alone, whether or not a name holds a time that parses. Where the listing fails, it
-- fails and deletes nothing.
pub prune_backups-Pruned :
    (parse_stamp : String → Option ℕ) (outcome : String → Removal) (keep : ℕ) (files : List File)
    → Pruned
        (max keep 1)
        (list_backups parse_stamp files)
        (prune_backups parse_stamp outcome keep files)
unfolding prune_backups list_backups
prune_backups-Pruned parse_stamp outcome keep files =
    read_pruned (read_entries parse_stamp files) (read-AllBackups parse_stamp files)
  where
    read_pruned :
        (read : Option (List BackupEntry))
        → AllBackups read
        → Pruned
            (max keep 1)
            (sorted_entries read)
            (prune_listed outcome (max keep 1) (sorted_entries read))
    read_pruned none all = (refl, refl)
    read_pruned (some entries) all =
        listed-Spares outcome (max keep 1) (sort_entries entries)
          (sort-All (λ e. is_backup e.name ≡ true) entries all) (sort-Newest entries)
