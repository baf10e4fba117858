-- ===== src/Store/Reachable.antt =====
-- crates/ludex-core/src/repo: the databases that the statements of the two repositories reach from a new one.
mod Tests
use ludex.Base.{ℕ, ◌≡◌, refl, ◌∙◌, false, ◌==◌, nat_eq, List, []}
use mathlib.Core.Path.{subst}
use ludex.Base.{Bool}
use ludex.Types.{
  Application, Session, RuntimeSnapshot, ExitReason, IdentityUpdate, Result, ok, ◌>>=◌,
}
use ludex.Store.{
  Db, begin, heartbeat, close_and_rollup, end_session, rows_affected, is_open_id,
  delete_sessions_and_recompute,
}
use ludex.Store.Invariant.{IsValid}
use ludex.Store.Sessions.{Keeps, begin-IsValid, heartbeat-IsValid}
use ludex.Store.Closing.{Owns, close_and_rollup-IsValid}
use ludex.Store.Delete.{Deleted, delete-Deleted}
use ludex.Store.Applications.{create, NewApplication, create-IsValid}
use ludex.Store.Edits.{update_identity, delete, merge_into, apply_playback}
use ludex.Store.Edits.Playback.{delta_of, close_and_rollup-end_session}
use ludex.Store.Edits.Valid.{update_identity-IsValid, delete-IsValid}
use ludex.Store.Edits.Merging.{merge_into-IsValid}

-- After the migrations.
abbrev pub new_db : Db
new_db = record { applications = []; sessions = []; next_application_id = 1; next_session_id = 1 }

-- A statement that fails leaves the database where it was, so only those that succeed are steps. A session is closed
-- for the application that owns it, if it is there; and `end` is a step only together with `apply_playback` of the
-- same figures, on an open row, as the statistics lack the session between the two.
pub data Reached : Db → Type 0 where
  opened : Reached new_db
  created :
      {db : Db} (fresh : NewApplication) {r : Application × Db}
      → Reached db
      → create fresh db ≡ ok r
      → Reached r.1
  begun :
      {db : Db} (application_id started_at : ℕ) {r : Session × Db}
      → Reached db
      → begin application_id started_at db ≡ ok r
      → Reached r.1
  beaten :
      {db db' : Db} (session_id : ℕ) (snapshot : RuntimeSnapshot)
      → Reached db
      → heartbeat session_id snapshot db ≡ ok db'
      → Reached db'
  closed :
      {db db' : Db} (session_id application_id : ℕ) (snapshot : RuntimeSnapshot)
      (reason : ExitReason)
      → Reached db
      → Owns session_id application_id db.sessions
      → close_and_rollup session_id application_id snapshot reason db ≡ ok db'
      → Reached db'
  played :
      {db db' : Db} (session_id application_id : ℕ) (snapshot : RuntimeSnapshot)
      (reason : ExitReason)
      → Reached db
      → Owns session_id application_id db.sessions
      → (rows_affected (is_open_id session_id) db.sessions == 0) ≡ false
      → (end_session session_id snapshot reason db >>= λ ended.
          ok (apply_playback application_id (delta_of snapshot) ended))
        ≡ ok db'
      → Reached db'
  dropped :
      {db : Db} (ids : List ℕ) {r : Bool × Db}
      → Reached db
      → delete_sessions_and_recompute ids db ≡ ok r
      → Reached r.1
  identified :
      {db : Db} (id : ℕ) (update : IdentityUpdate)
      → Reached db
      → Reached (update_identity id update db)
  removed : {db : Db} (id : ℕ) → Reached db → Reached (delete id db).1
  folded :
      {db db' : Db} (src_id dst_id : ℕ)
      → Reached db
      → merge_into src_id dst_id db ≡ ok db'
      → Reached db'

kept : {A : Type 0} (P : A → Type 0) {r : Result A} {a : A} → r ≡ ok a → Keeps P r → P a
kept P e h = subst (Keeps P) e h

-- Every database is valid that these reach from a new one, in any order: creating applications; beginning and
-- beating sessions; closing a session for the application that owns it, by `close_and_rollup`, or by `end` of an open
-- row and at once `apply_playback` of the same figures; deleting sessions; patching, deleting and merging
-- applications. Its ids are unique, an application has at most one open session, every session has an application,
-- and the statistics of each application are those of its closed sessions. An `end` whose figures are not applied, or
-- a close for another application, is no such step.
pub Reached-IsValid : (db : Db) → Reached db → IsValid db
Reached-IsValid _ opened = record {
  session_ids = tt;
  application_ids = tt;
  one_open = tt;
  checked = tt;
  owned = tt;
  agrees = tt;
}
Reached-IsValid _ (created {db} fresh before e) =
    kept (λ r. IsValid r.1) e (create-IsValid fresh db (Reached-IsValid db before))
Reached-IsValid _ (begun {db} application_id started_at before e) =
    kept (λ r. IsValid r.1) e
      (begin-IsValid application_id started_at db (Reached-IsValid db before))
Reached-IsValid _ (beaten {db} session_id snapshot before e) =
    kept IsValid e (heartbeat-IsValid session_id snapshot db (Reached-IsValid db before))
Reached-IsValid _ (closed {db} session_id application_id snapshot reason before owns e) =
    kept IsValid e (
      close_and_rollup-IsValid session_id application_id snapshot reason db
        (Reached-IsValid db before) owns)
Reached-IsValid _ (played {db} session_id application_id snapshot reason before owns met e) =
    kept IsValid (close_and_rollup-end_session session_id application_id snapshot reason db met ∙ e)
      (close_and_rollup-IsValid session_id application_id snapshot reason db
        (Reached-IsValid db before) owns)
Reached-IsValid _ (dropped {db} ids before e) =
    (kept (λ (r : Bool × Db). Deleted ids db r.1) e
      (delete-Deleted ids db (Reached-IsValid db before))).valid
Reached-IsValid _ (identified {db} id update before) =
    update_identity-IsValid id update db (Reached-IsValid db before)
Reached-IsValid _ (removed {db} id before) = delete-IsValid id db (Reached-IsValid db before)
Reached-IsValid _ (folded {db} src_id dst_id before e) =
    kept IsValid e (merge_into-IsValid src_id dst_id db (Reached-IsValid db before))
