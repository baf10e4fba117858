-- ===== src/Store/Resolve.antt =====
-- crates/ludex-core/src/repo/session.rs, `delete_sessions_and_recompute`: the loop that looks the ids up.
use ludex.Base.{
  ℕ, ◌≡◌, refl, inl, inr, true, false, ◌⊎◌, Option, none, some, List, [], ◌∷◌, arith, ◌==◌, nat_eq,
  Bool-cases, All, All-map, beq-eq_true,
}
use ludex.Base.Table.{contains}
use ludex.Types.{Session, ok, >>=-eq-ok}
use ludex.Store.{is_open, resolve, resolve_row, find_by_id, set_insert, Found}
use ludex.Store.Rows.{Ids}
use ludex.Store.Find.{Ids-find}

pub set_insert_self : (a : ℕ) (set : List ℕ) → contains (set_insert a set) a ≡ true
unfolding contains
set_insert_self a set = ground arith

pub set_insert-keeps :
    (a b : ℕ) (set : List ℕ) → contains set b ≡ true → contains (set_insert a set) b ≡ true
unfolding contains
set_insert-keeps a b set h = ground arith

-- A step of the first loop that does not abort.
pub resolve_row-ok :
    (id : ℕ) (row : Option Session) (found next : Found)
    → resolve_row row found ≡ ok next
    → ((row ≡ none) × (next ≡ found))
      ⊎ ((s : Session) × (row ≡ some s)
          × (is_open s ≡ false)
          × (next ≡ (true, set_insert s.application_id found.1)))
resolve_row-ok id none found next e = inl (refl, ground arith)
resolve_row-ok id (some s) found next e = inr (s, refl, ground arith, ground arith)

pub resolve-cons :
    (rows : List Session) (id : ℕ) (ids : List ℕ) (found found' : Found)
    → resolve rows (id ∷ ids) found ≡ ok found'
    → (next : Found) × (resolve_row (find_by_id id rows) found ≡ ok next)
      × (resolve rows ids next ≡ ok found')
unfolding resolve
resolve-cons rows id ids found found' e =
    >>=-eq-ok (resolve_row (find_by_id id rows) found) (λ next. resolve rows ids next) e

pub resolve-nil :
    (rows : List Session) (found found' : Found)
    → resolve rows [] found ≡ ok found'
    → found ≡ found'
unfolding resolve
resolve-nil rows found found' e = ground arith

pub resolve-keeps :
    (rows : List Session) (ids : List ℕ) (found found' : Found) (a : ℕ)
    → resolve rows ids found ≡ ok found'
    → contains found.1 a ≡ true
    → contains found'.1 a ≡ true
resolve-keeps rows [] found found' a e h = rw (← resolve-nil rows found found' e) h
resolve-keeps rows (id ∷ ids) found found' a e h =
    let (next, step, rest) = resolve-cons rows id ids found found' e in
    resolve-keeps rows ids next found' a rest
      (elim (resolve_row-ok id (find_by_id id rows) found next step) [
        | inl (_, same) ↦ rw same h
        | inr (s, _, _, more) ↦ rw more (set_insert-keeps s.application_id a found.1 h)
      ])

pub resolve-matched :
    (rows : List Session) (ids : List ℕ) (found found' : Found)
    → resolve rows ids found ≡ ok found'
    → found.0 ≡ true
    → found'.0 ≡ true
resolve-matched rows [] found found' e h = rw (← resolve-nil rows found found' e) h
resolve-matched rows (id ∷ ids) found found' e h =
    let (next, step, rest) = resolve-cons rows id ids found found' e in
    resolve-matched rows ids next found' rest
      (elim (resolve_row-ok id (find_by_id id rows) found next step) [
        | inl (_, same) ↦ rw same h
        | inr (s, _, _, more) ↦ rw more
      ])

-- What the first loop has established of a row that is named.
abbrev pub Resolved : Found → Session → Type 0
Resolved found s =
    (is_open s ≡ false) × (contains found.1 s.application_id ≡ true) × (found.0 ≡ true)

pub resolve-contains :
    (rows : List Session) (ids : List ℕ) (found found' : Found) (s : Session)
    → resolve rows ids found ≡ ok found'
    → find_by_id s.id rows ≡ some s
    → contains ids s.id ≡ true
    → Resolved found' s
unfolding contains
resolve-contains rows [] found found' s e at_id h = cc
resolve-contains rows (id ∷ ids) found found' s e at_id h =
    let (next, step, rest) = resolve-cons rows id ids found found' e in
    elim (Bool-cases (id == s.id)) [
      | inr other ↦ resolve-contains rows ids next found' s rest at_id (ground arith)
      | inl same ↦ elim (resolve_row-ok id (find_by_id id rows) found next step) [
        | inl (missing, _) ↦ cc (beq-eq_true id s.id same, at_id, missing)
        | inr (t, at_t, closed, more) ↦
            let row : s ≡ t = ground (arith, beq-eq_true id s.id same, at_id, at_t) in
            (
              rw row closed,
              resolve-keeps rows ids next found' s.application_id rest
                  (rw (more, row) (set_insert_self t.application_id found.1)),
              resolve-matched rows ids next found' rest (rw more),
            )
      ]
    ]

pub resolve-All :
    (n : ℕ) (rows : List Session) (ids : List ℕ) (found found' : Found)
    → Ids n rows
    → resolve rows ids found ≡ ok found'
    → All (λ s. contains ids s.id ≡ true → Resolved found' s) rows
resolve-All n rows ids found found' h e =
    All-map (λ s. find_by_id s.id rows ≡ some s) (λ s. contains ids s.id ≡ true → Resolved found' s)
      rows (λ s at_id among. resolve-contains rows ids found found' s e at_id among)
      (Ids-find n rows h)
