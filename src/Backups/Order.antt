-- ===== src/Backups/Order.antt =====
-- crates/ludex-core/src/backup.rs, `list_backups`: the order of the names, and the sort.
use ludex.Base.{
  ◌≡◌, refl, inl, inr, true, false, List, [], ◌∷◌, String, arith, Bool-cases, All, All-map,
}
use ludex.Backups.{BackupEntry, text_leb, insert_entry, sort_entries}

text_leb-total : (s t : String) → text_leb s t ≡ false → text_leb t s ≡ true
unfolding text_leb
text_leb-total String.[] t h = cc
text_leb-total (String.◌∷◌ c s) String.[] h = refl
text_leb-total (String.◌∷◌ c s) (String.◌∷◌ d t) h = ground (arith, text_leb-total s t)

text_leb_trans : (s t u : String) → text_leb s t ≡ true → text_leb t u ≡ true → text_leb s u ≡ true
unfolding text_leb
text_leb_trans String.[] t u h k = refl
text_leb_trans (String.◌∷◌ c s) String.[] u h k = cc
text_leb_trans (String.◌∷◌ c s) (String.◌∷◌ d t) String.[] h k = cc
text_leb_trans (String.◌∷◌ c s) (String.◌∷◌ d t) (String.◌∷◌ e u) h k =
    ground (arith, text_leb_trans s t u)

-- The newest by name first.
abbrev pub Newest : List BackupEntry → Type 0
Newest [] = Unit
Newest (e ∷ entries) = All (λ x. text_leb x.name e.name ≡ true) entries × Newest entries

pub insert-All :
    (P : BackupEntry → Type 0) (e : BackupEntry) (entries : List BackupEntry)
    → P e
    → All P entries
    → All P (insert_entry e entries)
unfolding insert_entry
insert-All P e [] p h = (p, tt)
insert-All P e (x ∷ entries) p h = elim (Bool-cases (text_leb x.name e.name)) [
  | inl before ↦ rw before (p, (h.0, h.1))
  | inr behind ↦ rw behind (h.0, insert-All P e entries p h.1)
]

insert-Newest :
    (e : BackupEntry) (entries : List BackupEntry)
    → Newest entries
    → Newest (insert_entry e entries)
unfolding insert_entry
insert-Newest e [] h = (tt, tt)
insert-Newest e (x ∷ entries) h = elim (Bool-cases (text_leb x.name e.name)) [
  | inl before ↦ rw before (
    (
      before,
      All-map (λ y. text_leb y.name x.name ≡ true) (λ y. text_leb y.name e.name ≡ true) entries
          (λ y le. text_leb_trans y.name x.name e.name le before) h.0,
    ),
    h,
  )
  | inr behind ↦ rw behind (
    insert-All (λ y. text_leb y.name x.name ≡ true) e entries (text_leb-total x.name e.name behind)
        h.0,
    insert-Newest e entries h.1,
  )
]

pub sort-Newest : (entries : List BackupEntry) → Newest (sort_entries entries)
unfolding sort_entries
sort-Newest [] = tt
sort-Newest (e ∷ entries) = insert-Newest e (sort_entries entries) (sort-Newest entries)

pub sort-All :
    (P : BackupEntry → Type 0) (entries : List BackupEntry)
    → All P entries
    → All P (sort_entries entries)
unfolding sort_entries
sort-All P [] h = tt
sort-All P (e ∷ entries) h = insert-All P e (sort_entries entries) h.0 (sort-All P entries h.1)
