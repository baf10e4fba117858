-- ===== src/Store/Filter.antt =====
-- Rows that a DELETE leaves in `sessions`.
use ludex.Base.{
  ℕ, ◌≤◌, ◌≡◌, refl, sym, ◌∙◌, inl, inr, Bool, true, false, not, ◌&&◌, List, [], ◌∷◌, arith, ◌==◌,
  nat_eq, Bool-cases, any, where_rows, All, foldl,
}
use ludex.Base.Table.{contains}
use ludex.Types.{Session}
use ludex.Store.{is_open_for, delete_id}
use ludex.Store.Rows.{Ids, OneOpen}

-- The rows that are left when all of `ids` are deleted.
abbrev pub without : List ℕ → List Session → List Session
without ids = where_rows (λ s. not (contains ids s.id))

-- A filter of a filter.
pub where_where :
    (p q r : Session → Bool) (rows : List Session)
    → ((s : Session) → r s ≡ (p s && q s))
    → where_rows q (where_rows p rows) ≡ where_rows r rows
where_where p q r [] h = refl
where_where p q r (s ∷ rows) h = ground (arith, h s, where_where p q r rows h)

pub where_all :
    (p : Session → Bool) (rows : List Session)
    → ((s : Session) → p s ≡ true)
    → where_rows p rows ≡ rows
where_all p [] h = refl
where_all p (s ∷ rows) h = ground (arith, h s, where_all p rows h)

pub deletes-without :
    (ids : List ℕ) (rows : List Session) → foldl delete_id rows ids ≡ without ids rows
unfolding contains
deletes-without [] rows = sym (where_all (λ s. true) rows (λ s. refl))
deletes-without (id ∷ ids) rows =
    deletes-without ids (delete_id rows id)
    ∙ where_where (λ s. not (s.id == id)) (λ s. not (contains ids s.id))
        (λ s. not (contains (id ∷ ids) s.id)) rows (λ s. ground arith)

pub Ids-mono : (m n : ℕ) (rows : List Session) → Ids m rows → m ≤ n → Ids n rows
Ids-mono m n [] h le = tt
Ids-mono m n (s ∷ rows) h le = (omega arith, h.1)

-- What a filter keeps.
pub where-Ids :
    (p : Session → Bool) (n : ℕ) (rows : List Session) → Ids n rows → Ids n (where_rows p rows)
where-Ids p n [] h = tt
where-Ids p n (s ∷ rows) h =
    ground (arith, where-Ids p s.id rows h.1, Ids-mono s.id n (where_rows p rows))

pub where-any :
    (p q : Session → Bool) (rows : List Session)
    → any q rows ≡ false
    → any q (where_rows p rows) ≡ false
where-any p q [] h = refl
where-any p q (s ∷ rows) h = ground (arith, where-any p q rows)

pub where-OneOpen :
    (p : Session → Bool) (rows : List Session) → OneOpen rows → OneOpen (where_rows p rows)
where-OneOpen p [] h = tt
where-OneOpen p (s ∷ rows) h =
    ground (arith, where-any p (is_open_for s.application_id) rows, where-OneOpen p rows h.1)

pub where-All {κ} :
    (P : Session → Type κ) (p : Session → Bool) (rows : List Session)
    → All P rows
    → All P (where_rows p rows)
where-All P p [] h = tt
where-All P p (s ∷ rows) h = elim (Bool-cases (p s)) [
  | inl e ↦ rw e (h.0, where-All P p rows h.1)
  | inr e ↦ rw e (where-All P p rows h.1)
]
