-- ===== src/Store/Edits/Moved.antt =====
-- crates/ludex-core/src/repo/application.rs, `merge_into`: the sessions that change their application.
use ludex.Base.{
  ℕ, ◌+◌, max, ◌≡◌, refl, false, not, ◌&&◌, ◌||◌, some, List, [], ◌∷◌, arith, ◌==◌, nat_eq, any,
  inl, inr, Bool-cases, where_rows, length, sum_of, max_of, All,
}
use ludex.Types.{Session, Application}
use ludex.Store.{is_open_for, closed_rows, has_id}
use ludex.Store.Rows.{Ids, OneOpen}
use ludex.Store.Invariant.{IsChecked}
use ludex.Store.Edits.{moved, belongs_to, find_application}

module _ (src dst : ℕ) (apart : (src == dst) ≡ false) where
  pub moved-none_left :
      (rows : List Session)
      → where_rows (λ s. not (belongs_to src s)) (moved src dst rows) ≡ moved src dst rows
  moved-none_left [] = refl
  moved-none_left (s ∷ rows) = ground (arith, moved-none_left rows)

  pub moved-Ids : (n : ℕ) (rows : List Session) → Ids n rows → Ids n (moved src dst rows)
  moved-Ids n [] h = tt
  moved-Ids n (s ∷ rows) h = ground (arith, moved-Ids s.id rows h.1)

  -- The open rows of an application, once those of `src` are `dst`'s.
  pub any-moved_dst :
      (rows : List Session)
      → any (is_open_for dst) (moved src dst rows)
        ≡ (any (is_open_for dst) rows || any (is_open_for src) rows)
  any-moved_dst [] = refl
  any-moved_dst (s ∷ rows) = ground (arith, any-moved_dst rows)

  pub any-moved_other :
      (a : ℕ) (rows : List Session)
      → (a == src) ≡ false
      → (a == dst) ≡ false
      → any (is_open_for a) (moved src dst rows) ≡ any (is_open_for a) rows
  any-moved_other a [] h k = refl
  any-moved_other a (s ∷ rows) h k = ground (arith, any-moved_other a rows h k)

  pub moved-OneOpen :
      (rows : List Session)
      → (any (is_open_for src) rows && any (is_open_for dst) rows) ≡ false
      → OneOpen rows
      → OneOpen (moved src dst rows)
  moved-OneOpen [] free h = tt
  moved-OneOpen (s ∷ rows) free h = ground (
    arith,
    moved-OneOpen rows,
    h.0,
    h.1,
    any-moved_dst rows,
    any-moved_other s.application_id rows,
  )

  pub moved-IsChecked :
      (rows : List Session) → All IsChecked rows → All IsChecked (moved src dst rows)
  moved-IsChecked [] h = tt
  moved-IsChecked (s ∷ rows) h = ground (arith, h.0, moved-IsChecked rows h.1)

  pub closed-moved_other :
      (a : ℕ) (rows : List Session)
      → (a == src) ≡ false
      → (a == dst) ≡ false
      → closed_rows a (moved src dst rows) ≡ closed_rows a rows
  closed-moved_other a [] h k = refl
  closed-moved_other a (s ∷ rows) h k = ground (arith, closed-moved_other a rows h k)

  pub length-moved :
      (rows : List Session)
      → length (closed_rows dst (moved src dst rows))
        ≡ length (closed_rows dst rows) + length (closed_rows src rows)
  length-moved [] = refl
  length-moved (s ∷ rows) = ground (arith, length-moved rows)

  pub sum-moved :
      (f : Session → ℕ) (rows : List Session)
      → ((s : Session) → f (record s { application_id = dst }) ≡ f s)
      → sum_of f (closed_rows dst (moved src dst rows))
        ≡ sum_of f (closed_rows dst rows) + sum_of f (closed_rows src rows)
  sum-moved f [] same = refl
  sum-moved f (s ∷ rows) same = ground (arith, same s, sum-moved f rows same)

  pub max-moved :
      (f : Session → ℕ) (rows : List Session)
      → ((s : Session) → f (record s { application_id = dst }) ≡ f s)
      → max_of f (closed_rows dst (moved src dst rows))
        ≡ max (max_of f (closed_rows dst rows)) (max_of f (closed_rows src rows))
  max-moved f [] same = refl
  max-moved f (s ∷ rows) same = ground (arith, same s, max-moved f rows same)

-- The row found is one of the rows, and has the id.
pub find_application-All {κ} :
    (P : Application → Type κ) (id : ℕ) (apps : List Application) (app : Application)
    → find_application id apps ≡ some app
    → All P apps
    → (app.id ≡ id) × P app
unfolding find_application
find_application-All P id [] app e h = cc
find_application-All P id (x ∷ apps) app e h = elim (Bool-cases (has_id id x)) [
  | inl same ↦
      let row : x ≡ app = ground (arith, e, same) in (ground (arith, same, row), rw (← row) h.0)
  | inr other ↦ find_application-All P id apps app (ground (arith, e, other)) h.1
]
