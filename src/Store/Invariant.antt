-- ===== src/Store/Invariant.antt =====
-- The well-formedness of the database, and when an application's statistics are those of its rows.
use ludex.Base.{ℕ, ◌≤◌, ◌<◌, ◌≡◌, true, List, [], ◌∷◌, nat_eq, length, any, sum_of, max_of, All}
use ludex.Types.{Application, Session}
use ludex.Store.{Db, closed_rows, has_id}
use ludex.Store.Rows.{Ids, OneOpen}

-- The CHECK of the runtime columns.
abbrev pub IsChecked : Session → Type 0
IsChecked s = s.interactive_runtime_seconds ≤ s.full_runtime_seconds

-- The statistics of an application are the count, the sums and the maximum over its closed rows.
pub record Agrees (rows : List Session) (app : Application) : Type 0 where
  pub run_count : app.stat_run_count ≡ length (closed_rows app.id rows)
  pub total_full :
      app.stat_total_full
      ≡ sum_of (λ (s : Session). s.full_runtime_seconds) (closed_rows app.id rows)
  pub total_interactive :
      app.stat_total_interactive
      ≡ sum_of (λ (s : Session). s.interactive_runtime_seconds) (closed_rows app.id rows)
  pub longest_full :
      app.stat_longest_full
      ≡ max_of (λ (s : Session). s.full_runtime_seconds) (closed_rows app.id rows)

-- Every session belongs to a row of `applications`.
abbrev pub HasApplication : List Application → Session → Type 0
HasApplication apps s = any (has_id s.application_id) apps ≡ true

-- Ids of applications fall from the newest row on.
abbrev pub AppIds : ℕ → List Application → Type 0
AppIds n [] = Unit {0}
AppIds n (app ∷ apps) = (app.id < n) × AppIds app.id apps

pub record IsValid (db : Db) : Type 0 where
  pub session_ids : Ids db.next_session_id db.sessions
  pub application_ids : AppIds db.next_application_id db.applications
  pub one_open : OneOpen db.sessions
  pub checked : All IsChecked db.sessions
  pub owned : All (HasApplication db.applications) db.sessions
  pub agrees : All (Agrees db.sessions) db.applications
