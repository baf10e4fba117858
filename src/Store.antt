-- ===== src/Store.antt =====
-- crates/ludex-core/src/repo/session.rs and the schema of crates/ludex-core/migrations: the tables
-- `applications` and `sessions`, and the statements that `SessionRepo` runs on them. A table is the
-- list of its rows, newest first; a statement that fails leaves the database as it was, and so does
-- a transaction that is not committed.
pub mod Rows
pub mod Invariant
pub mod Sessions
pub mod Closing
pub mod Find
pub mod Exact
pub mod Filter
pub mod Recompute
pub mod Resolve
pub mod Delete
pub mod Reachable
pub mod Applications
pub mod Edits
pub mod Tests
use ludex.Base.{
  ℕ, suc, ◌+◌, max, Bool, true, false, not, ◌&&◌, ◌||◌, Option, none, some, List, [], ◌∷◌, foldl,
  leb, Eq, ◌==◌, nat_eq, if◌then◌else◌, is_none, is_some, length, any, where_rows, sum_of, max_of,
}
use ludex.Base.Table.{contains}
use ludex.Types.{Application, Session, RuntimeSnapshot, ExitReason, Error, Result, ok, err, ◌>>=◌}

pub record Db : Type 0 where
  pub applications : List Application
  pub sessions : List Session
  pub next_application_id : ℕ
  pub next_session_id : ℕ

-- `UPDATE … SET … WHERE p`, and the number of rows that it affects.
abbrev pub update_where {ℓ} : {A : Type ℓ} → (A → Bool) → (A → A) → List A → List A
update_where p f [] = []
update_where p f (x ∷ xs) = (if p x then f x else x) ∷ update_where p f xs

abbrev pub rows_affected {ℓ} : {A : Type ℓ} → (A → Bool) → List A → ℕ
rows_affected p xs = length (where_rows p xs)

-- `ended_at IS NULL`.
abbrev pub is_open : Session → Bool
is_open s = is_none s.ended_at

-- `id = ? AND ended_at IS NULL`.
abbrev pub is_open_id : ℕ → Session → Bool
is_open_id id s = s.id == id && is_open s

-- `application_id = ? AND ended_at IS NULL`, the condition of the unique index.
abbrev pub is_open_for : ℕ → Session → Bool
is_open_for application_id s = s.application_id == application_id && is_open s

-- `application_id = ? AND ended_at IS NOT NULL`.
abbrev pub is_closed_for : ℕ → Session → Bool
is_closed_for application_id s = s.application_id == application_id && not (is_open s)

abbrev pub has_id : ℕ → Application → Bool
has_id id app = app.id == id

-- `SessionRepo::begin`.
unfoldable pub begin : ℕ → ℕ → Db → Result (Session × Db)
begin application_id started_at db =
    if any (is_open_for application_id) db.sessions
    then err (Error.open_session_exists application_id)
    else if any (has_id application_id) db.applications
    then ok
        (row, record db { sessions = row ∷ db.sessions; next_session_id = suc db.next_session_id })
    else err Error.sql
  where
    row : Session
    row = record {
      id = db.next_session_id;
      application_id = application_id;
      started_at = started_at;
      ended_at = none;
      heartbeat_at = started_at;
      full_runtime_seconds = 0;
      interactive_runtime_seconds = 0;
      exit_reason = none;
    }

-- The CHECK of the runtime columns, on a row that an UPDATE writes.
abbrev pub runtimes_checked : RuntimeSnapshot → Bool
runtimes_checked snapshot = leb snapshot.interactive_runtime_seconds snapshot.full_runtime_seconds

-- `UPDATE sessions SET … WHERE id = ? AND ended_at IS NULL`: the rows, or the CHECK's refusal.
abbrev pub update_open :
    ℕ → RuntimeSnapshot → (Session → Session) → List Session → Result (List Session)
update_open session_id snapshot f rows =
    if rows_affected (is_open_id session_id) rows == 0 || runtimes_checked snapshot
    then ok (update_where (is_open_id session_id) f rows)
    else err Error.sql

abbrev pub beat : RuntimeSnapshot → Session → Session
beat snapshot s = record s {
  heartbeat_at = snapshot.at;
  full_runtime_seconds = snapshot.full_runtime_seconds;
  interactive_runtime_seconds = snapshot.interactive_runtime_seconds;
}

abbrev pub close : RuntimeSnapshot → ExitReason → Session → Session
close snapshot reason s = record s {
  ended_at = some snapshot.at;
  heartbeat_at = snapshot.at;
  full_runtime_seconds = snapshot.full_runtime_seconds;
  interactive_runtime_seconds = snapshot.interactive_runtime_seconds;
  exit_reason = some reason;
}

-- `SessionRepo::heartbeat`.
unfoldable pub heartbeat : ℕ → RuntimeSnapshot → Db → Result Db
heartbeat session_id snapshot db = do
  rows ← update_open session_id snapshot (beat snapshot) db.sessions
  ok (record db { sessions = rows })

-- `SessionRepo::end`.
unfoldable pub end_session : ℕ → RuntimeSnapshot → ExitReason → Db → Result Db
end_session session_id snapshot reason db = do
  rows ← update_open session_id snapshot (close snapshot reason) db.sessions
  ok (record db { sessions = rows })

-- `SessionRepo::find_by_id`.
unfoldable pub find_by_id : ℕ → List Session → Option Session
find_by_id id [] = none
find_by_id id (s ∷ rows) = if s.id == id then some s else find_by_id id rows

-- `SessionRepo::list_all_orphans`.
unfoldable pub list_all_orphans : Db → List Session
list_all_orphans db = where_rows is_open db.sessions

abbrev pub roll_up : RuntimeSnapshot → Application → Application
roll_up snapshot app = record app {
  stat_run_count = app.stat_run_count + 1;
  stat_total_full = app.stat_total_full + snapshot.full_runtime_seconds;
  stat_total_interactive = app.stat_total_interactive + snapshot.interactive_runtime_seconds;
  stat_longest_full = max app.stat_longest_full snapshot.full_runtime_seconds;
  last_played_at = some snapshot.at;
}

-- `SessionRepo::close_and_rollup`.
unfoldable pub close_and_rollup : ℕ → ℕ → RuntimeSnapshot → ExitReason → Db → Result Db
close_and_rollup session_id application_id snapshot reason db = do
  rows ← update_open session_id snapshot (close snapshot reason) db.sessions
  if rows_affected (is_open_id session_id) db.sessions == 0
      then ok db
      else ok (record db {
        sessions = rows;
        applications = update_where (has_id application_id) (roll_up snapshot) db.applications;
      })

-- The rows behind an application's statistics.
abbrev pub closed_rows : ℕ → List Session → List Session
closed_rows application_id rows = where_rows (is_closed_for application_id) rows

abbrev pub later : Option ℕ → Option ℕ → Option ℕ
later none b = b
later (some a) none = some a
later (some a) (some b) = some (max a b)

-- `MAX(ended_at)`, an aggregate that passes over NULL.
abbrev pub max_ended : List Session → Option ℕ
max_ended [] = none
max_ended (s ∷ rows) = later s.ended_at (max_ended rows)

-- The statement that rebuilds an application's statistics from its closed rows.
abbrev pub recompute : List Session → Application → Application
recompute rows app = record app {
  stat_run_count = length (closed_rows app.id rows);
  stat_total_full = sum_of (λ (s : Session). s.full_runtime_seconds) (closed_rows app.id rows);
  stat_total_interactive =
      sum_of (λ (s : Session). s.interactive_runtime_seconds) (closed_rows app.id rows);
  stat_longest_full = max_of (λ (s : Session). s.full_runtime_seconds) (closed_rows app.id rows);
  last_played_at = max_ended (closed_rows app.id rows);
}

-- What the first loop has found: `matched_any`, and the set `app_ids`.
abbrev pub Found : Type 0
Found = Bool × List ℕ

abbrev pub set_insert : ℕ → List ℕ → List ℕ
set_insert a set = if contains set a then set else a ∷ set

abbrev pub resolve_row : Option Session → Found → Result Found
resolve_row none found = ok found
resolve_row (some s) (matched_any, app_ids) =
    if is_open s
    then err (Error.invariant "cannot delete an open session; stop the game first")
    else ok (true, set_insert s.application_id app_ids)

-- The first loop: an open row aborts, a missing one is passed over.
pub resolve : List Session → List ℕ → Found → Result Found
resolve rows [] found = ok found
resolve rows (id ∷ ids) found =
    resolve_row (find_by_id id rows) found >>= λ next. resolve rows ids next

abbrev pub delete_id : List Session → ℕ → List Session
delete_id rows id = where_rows (λ s. not (s.id == id)) rows

abbrev pub recompute_id : List Session → List Application → ℕ → List Application
recompute_id rows apps id = update_where (has_id id) (recompute rows) apps

-- The second and the third loop.
pub delete_found : List ℕ → List ℕ → Db → Db
delete_found ids app_ids db =
    let rows = foldl delete_id db.sessions ids in
    record db { sessions = rows; applications = foldl (recompute_id rows) db.applications app_ids }

abbrev pub is_empty {ℓ} : {A : Type ℓ} → List A → Bool
is_empty [] = true
is_empty (x ∷ xs) = false

-- `SessionRepo::delete_sessions_and_recompute`.
pub delete_sessions_and_recompute : List ℕ → Db → Result (Bool × Db)
unfolding delete_found resolve find_by_id
delete_sessions_and_recompute ids db = if is_empty ids then ok (false, db) else do
  found ← resolve db.sessions ids (false, [])
  if not found.0 then ok (false, db) else ok (true, delete_found ids found.1 db)
