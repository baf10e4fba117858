-- ===== src/Store/Find.antt =====
-- Rows of `sessions` found by id, before and after one of them is written.
use ludex.Base.{
  ℕ, ◌<◌, ◌≡◌, ◌≢◌, true, false, some, List, [], ◌∷◌, arith, ◌==◌, nat_eq, length, where_rows, All,
  All-map, All-map₂,
}
use ludex.Types.{Session}
use ludex.Store.{find_by_id, is_open, is_open_id}
use ludex.Store.Rows.{Ids, Replaced, here, there, Replaced-old, Replaced-below}

pub Ids-below : (n : ℕ) (rows : List Session) → Ids n rows → All (λ s. s.id < n) rows
Ids-below n [] h = tt
Ids-below n (s ∷ rows) h = (
  h.0,
  All-map (λ t. t.id < s.id) (λ t. t.id < n) rows (λ t lt. omega arith) (Ids-below s.id rows h.1),
)

pub find_by_id-next :
    (s t : Session) (rows : List Session)
    → t.id < s.id
    → find_by_id t.id rows ≡ some t
    → find_by_id t.id (s ∷ rows) ≡ some t
unfolding find_by_id
find_by_id-next s t rows lt h = ground arith

-- Ids are unique, so a row is found by its own.
pub Ids-find :
    (n : ℕ) (rows : List Session) → Ids n rows → All (λ s. find_by_id s.id rows ≡ some s) rows
unfolding find_by_id
Ids-find n [] h = tt
Ids-find n (s ∷ rows) h = (
  ground arith,
  All-map₂ (λ t. t.id < s.id) (λ t. find_by_id t.id rows ≡ some t)
      (λ t. find_by_id t.id (s ∷ rows) ≡ some t) rows (λ t. find_by_id-next s t rows)
      (Ids-below s.id rows h.1) (Ids-find s.id rows h.1),
)

-- The row found has the id that was asked for, and the id was given out.
pub find_by_id-id :
    (id n : ℕ) (rows : List Session) (s : Session)
    → Ids n rows
    → find_by_id id rows ≡ some s
    → (s.id ≡ id) × (s.id < n)
unfolding find_by_id
find_by_id-id id n [] s h e = cc
find_by_id-id id n (x ∷ rows) s h e = ground (arith, find_by_id-id id x.id rows s h.1)

pub find-affected :
    (id : ℕ) (rows : List Session) (s : Session)
    → find_by_id id rows ≡ some s
    → is_open s ≡ true
    → (length (where_rows (is_open_id id) rows) == 0) ≡ false
unfolding find_by_id
find-affected id [] s e opened = cc
find-affected id (x ∷ rows) s e opened = ground (arith, find-affected id rows s)

pub Replaced-find_ne :
    {s s' : Session} (id : ℕ) {rows rows' : List Session}
    → Replaced s s' rows rows'
    → s'.id ≡ s.id
    → id ≢ s.id
    → find_by_id id rows' ≡ find_by_id id rows
unfolding find_by_id
Replaced-find_ne id (here rows) e ne = ground arith
Replaced-find_ne id (there x rest) e ne = ground (arith, Replaced-find_ne id rest e ne)

pub Replaced-find_self :
    {s s' : Session} (n : ℕ) {rows rows' : List Session}
    → Replaced s s' rows rows'
    → s'.id ≡ s.id
    → Ids n rows
    → find_by_id s.id rows' ≡ some s'
unfolding find_by_id
Replaced-find_self n (here rows) e h = ground arith
Replaced-find_self n (there x rest) e h =
    ground (arith, Replaced-below x.id rest h.1, Replaced-find_self x.id rest e h.1)

-- The open row that an UPDATE writes is the one found by the id.
pub written-found :
    {s s' : Session} {rows rows' : List Session} (id n : ℕ) (t : Session)
    → Ids n rows
    → Replaced s s' rows rows'
    → s.id ≡ id
    → find_by_id id rows ≡ some t
    → s ≡ t
written-found id n t h rest same e =
    ground (arith, Replaced-old (λ r. find_by_id r.id _ ≡ some r) rest (Ids-find n _ h), e, same)
