-- ===== src/Store/Edits/Valid.antt =====
-- crates/ludex-core/src/repo/application.rs: edits of applications and the validity of the database.
use ludex.Base.{
  ℕ, ◌≤◌, ◌≡◌, refl, true, false, not, List, [], ◌∷◌, arith, ◌==◌, nat_eq, any, inl, inr,
  Bool-cases, where_rows, All,
}
use ludex.Types.{Session, Application, IdentityUpdate}
use ludex.Store.{Db, closed_rows, update_where, has_id}
use ludex.Store.Filter.{where-Ids, where-OneOpen, where-All}
use ludex.Store.Invariant.{IsValid, IsChecked, Agrees, HasApplication, AppIds}
use ludex.Store.Closing.{update-AppIds, owned-update}
use ludex.Store.Edits.{belongs_to, patch, update_identity, delete}

patched-Agrees :
    (id : ℕ) (update : IdentityUpdate) (rows : List Session) (apps : List Application)
    → All (Agrees rows) apps
    → All (Agrees rows) (update_where (has_id id) (patch update) apps)
patched-Agrees id update rows [] h = tt
patched-Agrees id update rows (app ∷ apps) h = elim (Bool-cases (has_id id app)) [
  | inl e ↦ rw e (
    record {
      run_count = h.0.run_count;
      total_full = h.0.total_full;
      total_interactive = h.0.total_interactive;
      longest_full = h.0.longest_full;
    },
    patched-Agrees id update rows apps h.1,
  )
  | inr e ↦ rw e (h.0, patched-Agrees id update rows apps h.1)
]

-- A patch of an application's metadata keeps a valid database valid: it touches no statistics.
pub update_identity-IsValid :
    (id : ℕ) (update : IdentityUpdate) (db : Db)
    → IsValid db
    → IsValid (update_identity id update db)
unfolding update_identity
update_identity-IsValid id update db v = record {
  session_ids = v.session_ids;
  application_ids =
      update-AppIds (has_id id) (patch update) db.next_application_id db.applications (λ app. refl)
        v.application_ids;
  one_open = v.one_open;
  checked = v.checked;
  owned = owned-update (has_id id) (patch update) db.applications (λ app. refl) db.sessions v.owned;
  agrees = patched-Agrees id update db.sessions db.applications v.agrees;
}

-- The applications without one.
abbrev pub others : ℕ → List Application → List Application
others id = where_rows (λ app. not (has_id id app))

AppIds-mono : (m n : ℕ) (apps : List Application) → m ≤ n → AppIds m apps → AppIds n apps
AppIds-mono m n [] le h = tt
AppIds-mono m n (app ∷ apps) le h = (omega (arith, h.0), h.1)

pub others-AppIds : (id n : ℕ) (apps : List Application) → AppIds n apps → AppIds n (others id apps)
others-AppIds id n [] h = tt
others-AppIds id n (app ∷ apps) h =
    ground (arith, h.0, others-AppIds id app.id apps h.1, AppIds-mono app.id n (others id apps))

pub any-others :
    (id a : ℕ) (apps : List Application)
    → (a == id) ≡ false
    → any (has_id a) apps ≡ true
    → any (has_id a) (others id apps) ≡ true
any-others id a [] e h = cc
any-others id a (app ∷ apps) e h = ground (arith, any-others id a apps e)

others-owned :
    (id : ℕ) (apps : List Application) (rows : List Session)
    → All (HasApplication apps) rows
    → All (HasApplication (others id apps)) (where_rows (λ s. not (belongs_to id s)) rows)
others-owned id apps [] h = tt
others-owned id apps (s ∷ rows) h = elim (Bool-cases (belongs_to id s)) [
  | inl e ↦ rw e (others-owned id apps rows h.1)
  | inr e ↦ rw e (any-others id s.application_id apps e h.0, others-owned id apps rows h.1)
]

closed-others :
    (id a : ℕ) (rows : List Session)
    → (a == id) ≡ false
    → closed_rows a (where_rows (λ s. not (belongs_to id s)) rows) ≡ closed_rows a rows
closed-others id a [] e = refl
closed-others id a (s ∷ rows) e = ground (arith, closed-others id a rows e)

pub Agrees-same :
    (rows rows' : List Session) (app : Application)
    → closed_rows app.id rows' ≡ closed_rows app.id rows
    → Agrees rows app
    → Agrees rows' app
Agrees-same rows rows' app e h = record {
  run_count = rw e h.run_count;
  total_full = rw e h.total_full;
  total_interactive = rw e h.total_interactive;
  longest_full = rw e h.longest_full;
}

others-Agrees :
    (id : ℕ) (rows : List Session) (apps : List Application)
    → All (Agrees rows) apps
    → All (Agrees (where_rows (λ s. not (belongs_to id s)) rows)) (others id apps)
others-Agrees id rows [] h = tt
others-Agrees id rows (app ∷ apps) h = elim (Bool-cases (has_id id app)) [
  | inl e ↦ rw e (others-Agrees id rows apps h.1)
  | inr e ↦ rw e (
    Agrees-same rows (where_rows (λ s. not (belongs_to id s)) rows) app
        (closed-others id app.id rows e) h.0,
    others-Agrees id rows apps h.1,
  )
]

-- Deleting an application, with the sessions that go with it, keeps a valid database valid.
pub delete-IsValid : (id : ℕ) (db : Db) → IsValid db → IsValid (delete id db).1
unfolding delete
delete-IsValid id db v = record {
  session_ids = where-Ids _ db.next_session_id db.sessions v.session_ids;
  application_ids = others-AppIds id db.next_application_id db.applications v.application_ids;
  one_open = where-OneOpen _ db.sessions v.one_open;
  checked = where-All IsChecked _ db.sessions v.checked;
  owned = others-owned id db.applications db.sessions v.owned;
  agrees = others-Agrees id db.sessions db.applications v.agrees;
}
