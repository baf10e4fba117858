-- ===== src/Store/Delete.antt =====
-- crates/ludex-core/src/repo/session.rs, `delete_sessions_and_recompute`: the rows that go, and the statistics that are rebuilt.
use ludex.Base.{
  ℕ, ◌≡◌, refl, sym, inl, inr, Bool, true, false, not, List, [], ◌∷◌, arith, nat_eq, if◌then◌else◌,
  Bool-cases, All, All-map,
}
use ludex.Base.Table.{contains}
use ludex.Types.{Session, ok, ◌>>=◌, Result-cases}
use ludex.Store.{Db, is_open, delete_found, resolve, delete_sessions_and_recompute, Found}
use ludex.Store.Invariant.{IsValid}
use ludex.Store.Sessions.{Keeps}
use ludex.Store.Filter.{without, where_all, deletes-without}
use ludex.Store.Recompute.{delete_found-IsValid}
use ludex.Store.Resolve.{Resolved, resolve-All}

without_none :
    (ids : List ℕ) (found : Found) (rows : List Session)
    → found.0 ≡ false
    → All (λ s. contains ids s.id ≡ true → Resolved found s) rows
    → without ids rows ≡ rows
without_none ids found [] e h = refl
without_none ids found (s ∷ rows) e h = ground (arith, h.0, without_none ids found rows e h.1)

delete_found-sessions :
    (ids app_ids : List ℕ) (db : Db)
    → (delete_found ids app_ids db).sessions ≡ without ids db.sessions
unfolding delete_found
delete_found-sessions ids app_ids db = deletes-without ids db.sessions

All-nothing : (rows : List Session) → All (λ s. false ≡ true → is_open s ≡ false) rows
All-nothing [] = tt
All-nothing (s ∷ rows) = (λ e. cc, All-nothing rows)

-- The rows named are gone and all were closed, the other rows are as they were, and the database
-- is valid: the statistics of every application are those of its remaining closed rows.
pub record Deleted (ids : List ℕ) (db db' : Db) : Type 0 where
  pub valid : IsValid db'
  pub remaining : db'.sessions ≡ without ids db.sessions
  pub closed : All (λ s. contains ids s.id ≡ true → is_open s ≡ false) db.sessions

found-Deleted :
    (ids : List ℕ) (db : Db) (found : Found)
    → IsValid db
    → resolve db.sessions ids (false, []) ≡ ok found
    → Keeps
        (λ (r : Bool × Db). Deleted ids db r.1)
        (if not found.0 then ok (false, db) else ok (true, delete_found ids found.1 db))
found-Deleted ids db found v e = elim (Bool-cases found.0) [
  | inr none_matched ↦ rw none_matched (record {
    valid = v;
    remaining = sym (without_none ids found db.sessions none_matched named);
    closed = shut;
  })
  | inl some_matched ↦ rw some_matched (record {
    valid = delete_found-IsValid ids found.1 db v (
        All-map (λ s. contains ids s.id ≡ true → Resolved found s)
          (λ s. contains ids s.id ≡ true → contains found.1 s.application_id ≡ true) db.sessions
          (λ s h among. (h among).1) named);
    remaining = delete_found-sessions ids found.1 db;
    closed = shut;
  })
]
  where
    named : All (λ s. contains ids s.id ≡ true → Resolved found s) db.sessions
    named = resolve-All db.next_session_id db.sessions ids (false, []) found v.session_ids e

    shut : All (λ s. contains ids s.id ≡ true → is_open s ≡ false) db.sessions
    shut =
        All-map (λ s. contains ids s.id ≡ true → Resolved found s)
          (λ s. contains ids s.id ≡ true → is_open s ≡ false) db.sessions (λ s h among. (h among).0)
          named

-- Deleting sessions of a valid database, where no error stops it, leaves exactly the rows that are
-- not named, took no open row, and leaves the database valid: the statistics of every application
-- are again those of its closed rows.
pub delete-Deleted :
    (ids : List ℕ) (db : Db)
    → IsValid db
    → Keeps (λ (r : Bool × Db). Deleted ids db r.1) (delete_sessions_and_recompute ids db)
unfolding delete_sessions_and_recompute contains
delete-Deleted [] db v = record {
  valid = v;
  remaining = sym (where_all (λ s. true) db.sessions (λ s. refl));
  closed = All-nothing db.sessions;
}
delete-Deleted (id ∷ ids) db v = elim (Result-cases (resolve db.sessions (id ∷ ids) (false, []))) [
  | inl (found, e) ↦ rw (e, ◌>>=◌) (found-Deleted (id ∷ ids) db found v e)
  | inr (error, e) ↦ rw (e, ◌>>=◌) tt
]
