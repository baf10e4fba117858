-- ===== src/Store/Rows.antt =====
-- The table `sessions` under one statement: a new row, one row written, rows deleted.
use ludex.Base.{
  ℕ, ◌+◌, ◌≤◌, ◌<◌, ◌≡◌, refl, inl, inr, true, false, List, [], ◌∷◌, arith, ◌==◌, nat_eq,
  if◌then◌else◌, Bool-cases, length, any, where_rows, sum_of, max_of, max, All,
}
use ludex.Types.{Session}
use ludex.Store.{is_open, is_open_id, is_open_for, closed_rows, update_where}

-- AUTOINCREMENT: ids fall from the newest row on, below the next one to be given.
abbrev pub Ids : ℕ → List Session → Type 0
Ids n [] = Unit {0}
Ids n (s ∷ rows) = (s.id < n) × Ids s.id rows

-- The unique index: no two open rows of one application.
abbrev pub OneOpen : List Session → Type 0
OneOpen [] = Unit {0}
OneOpen (s ∷ rows) =
    (is_open s ≡ true → any (is_open_for s.application_id) rows ≡ false) × OneOpen rows

-- One row of a table written over.
pub data Replaced (s s' : Session) : List Session → List Session → Type 0 where
  here : (rows : List Session) → Replaced s s' (s ∷ rows) (s' ∷ rows)
  there :
      {rows rows' : List Session} (x : Session)
      → Replaced s s' rows rows'
      → Replaced s s' (x ∷ rows) (x ∷ rows')

update_where-above :
    (id : ℕ) (f : Session → Session) (n : ℕ) (rows : List Session)
    → Ids n rows
    → n ≤ id
    → update_where (is_open_id id) f rows ≡ rows
update_where-above id f n [] ids h = refl
update_where-above id f n (s ∷ rows) ids h = ground (arith, update_where-above id f s.id rows ids.1)

-- An UPDATE by id writes the one row that its condition meets.
pub update_where-Replaced :
    (id : ℕ) (f : Session → Session) (n : ℕ) (rows : List Session)
    → Ids n rows
    → (length (where_rows (is_open_id id) rows) == 0) ≡ false
    → (s : Session) × (s.id ≡ id)
      × (is_open s ≡ true)
      × Replaced s (f s) rows (update_where (is_open_id id) f rows)
update_where-Replaced id f n [] ids h = cc
update_where-Replaced id f n (s ∷ rows) ids h = elim (Bool-cases (is_open_id id s)) [
  | inl e ↦ (
    s,
    ground arith,
    ground arith,
    rw (e, update_where-above id f s.id rows ids.1 (ground arith)) (here rows),
  )
  | inr e ↦
      let (t, same, opened, rest) = update_where-Replaced id f s.id rows ids.1 (rw e at h) in
      (t, same, opened, rw e (there s rest))
]

pub Replaced-Ids :
    {s s' : Session} (n : ℕ) {rows rows' : List Session}
    → Replaced s s' rows rows'
    → s'.id ≡ s.id
    → Ids n rows
    → Ids n rows'
Replaced-Ids n (here rows) e ids = rw e ids
Replaced-Ids n (there x rest) e ids = (ids.0, Replaced-Ids x.id rest e ids.1)

-- The row keeps its application, and is not opened again.
abbrev pub Settles : Session → Session → Type 0
Settles s s' = (s'.application_id ≡ s.application_id) × (is_open s ≡ true)

Replaced-any :
    {s s' : Session} {rows rows' : List Session} (a : ℕ)
    → Replaced s s' rows rows'
    → Settles s s'
    → any (is_open_for a) rows ≡ false
    → any (is_open_for a) rows' ≡ false
Replaced-any a (here rows) settles h = ground arith
Replaced-any a (there x rest) settles h = ground (arith, Replaced-any a rest settles)

pub Replaced-OneOpen :
    {s s' : Session} {rows rows' : List Session}
    → Replaced s s' rows rows'
    → Settles s s'
    → OneOpen rows
    → OneOpen rows'
Replaced-OneOpen (here rows) settles h = ground arith
Replaced-OneOpen (there x rest) settles h = (
  λ opened. Replaced-any x.application_id rest settles (h.0 opened),
  Replaced-OneOpen rest settles h.1,
)

pub Replaced-All {κ} :
    (P : Session → Type κ) {s s' : Session} {rows rows' : List Session}
    → Replaced s s' rows rows'
    → P s'
    → All P rows
    → All P rows'
Replaced-All P (here rows) p h = (p, h.1)
Replaced-All P (there x rest) p h = (h.0, Replaced-All P rest p h.1)

-- What holds of all rows held of the row that was written over.
pub Replaced-old {κ} :
    (P : Session → Type κ) {s s' : Session} {rows rows' : List Session}
    → Replaced s s' rows rows'
    → All P rows
    → P s
Replaced-old P (here rows) h = h.0
Replaced-old P (there x rest) h = Replaced-old P rest h.1

-- An UPDATE whose condition no row meets changes nothing.
pub update_where_none :
    (id : ℕ) (f : Session → Session) (rows : List Session)
    → (length (where_rows (is_open_id id) rows) == 0) ≡ true
    → update_where (is_open_id id) f rows ≡ rows
update_where_none id f [] h = refl
update_where_none id f (s ∷ rows) h = ground (arith, update_where_none id f rows)

above_none :
    (id n : ℕ) (rows : List Session)
    → Ids n rows
    → n ≤ id
    → length (where_rows (is_open_id id) rows) ≡ 0
above_none id n [] ids h = refl
above_none id n (s ∷ rows) ids h = ground (arith, above_none id s.id rows ids.1)

pub Replaced-below :
    {s s' : Session} (n : ℕ) {rows rows' : List Session}
    → Replaced s s' rows rows'
    → Ids n rows
    → s.id < n
Replaced-below n (here rows) ids = ids.0
Replaced-below n (there x rest) ids = omega (arith, Replaced-below x.id rest ids.1, ids.0)

-- Once it is closed, no row with its id is open.
pub Replaced-closed_id :
    {s s' : Session} (id n : ℕ) {rows rows' : List Session}
    → Replaced s s' rows rows'
    → Ids n rows
    → s.id ≡ id
    → is_open s' ≡ false
    → (length (where_rows (is_open_id id) rows') == 0) ≡ true
Replaced-closed_id {s} id n (here rows) ids same closed =
    ground (arith, above_none id s.id rows ids.1)
Replaced-closed_id id n (there x rest) ids same closed =
    ground (arith, Replaced-below x.id rest ids.1, Replaced-closed_id id x.id rest ids.1)

-- A heartbeat changes no closed row.
pub Replaced-closed_rows :
    {s s' : Session} {rows rows' : List Session} (a : ℕ)
    → Replaced s s' rows rows'
    → is_open s ≡ true
    → is_open s' ≡ true
    → closed_rows a rows' ≡ closed_rows a rows
Replaced-closed_rows a (here rows) h h' = ground arith
Replaced-closed_rows a (there x rest) h h' = ground (arith, Replaced-closed_rows a rest h h')

-- Closing a row adds it to the closed rows of its application, and to no other's.
module _ {s s' : Session} (a : ℕ) (opened : is_open s ≡ true) (closed : is_open s' ≡ false) where
  pub Replaced-length :
      {rows rows' : List Session}
      → Replaced s s' rows rows'
      → length (closed_rows a rows')
        ≡ length (closed_rows a rows) + (if s'.application_id == a then 1 else 0)
  Replaced-length (here rows) = ground arith
  Replaced-length (there x rest) = ground (arith, Replaced-length rest)

  pub Replaced-sum_of :
      (f : Session → ℕ) {rows rows' : List Session}
      → Replaced s s' rows rows'
      → sum_of f (closed_rows a rows')
        ≡ sum_of f (closed_rows a rows) + (if s'.application_id == a then f s' else 0)
  Replaced-sum_of f (here rows) = ground arith
  Replaced-sum_of f (there x rest) = ground (arith, Replaced-sum_of f rest)

  pub Replaced-max_of :
      (f : Session → ℕ) {rows rows' : List Session}
      → Replaced s s' rows rows'
      → max_of f (closed_rows a rows')
        ≡ max (max_of f (closed_rows a rows)) (if s'.application_id == a then f s' else 0)
  Replaced-max_of f (here rows) = ground arith
  Replaced-max_of f (there x rest) = ground (arith, Replaced-max_of f rest)
