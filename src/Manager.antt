-- ===== src/Manager.antt =====
-- crates/ludex-daemon/src/session_manager.rs: the consumer of game events that keeps the sessions.
-- The database calls are those of `Store`, the idle tracker is that of `Idle`. A handler takes what
-- it reads from outside in `Reading`: the monotonic clock, the wall clock, and the cutscene grace of
-- the shared configuration, each read once for the handler. Notifications and enrichment runs that
-- a handler starts are collected in order; whether a full channel drops one is not modelled.
pub mod Link
pub mod Runtimes
pub mod Started
pub mod Closing
pub mod Run
pub mod Shutdown
pub mod Recovery
pub mod Opening
mod Tests
use ludex.Base.{
  ℕ, suc, ◌+◌, ◌-◌, min, Bool, true, false, Option, none, some, List, [], ◌∷◌, ◌++◌, String,
  if◌then◌else◌, is_none, map, length, i64_max, Eq,
}
use Prim.Native.Nat.{◌/◌}
use ludex.Base.Int.{pos, sub_ℕ, clamp, i64_bits}
use ludex.Base.Table.{Table, lookup, contains_key, insert, remove, contains}
use ludex.Types.{
  Application, Session, GameKey, key_eq, ExitReason, GraphicsPlatform, ProcessArchitecture,
  RuntimeSnapshot, Icons, Error, Result, ok, err, ◌>>=◌,
}
use ludex.Store.{Db, begin, heartbeat, close_and_rollup, list_all_orphans}
use ludex.Store.Applications.{NewApplication, find_by_key, create}
use ludex.Idle
use ludex.Idle.{nanos_per_second, session_start_baseline, billable_idle_seconds_since}

pub record OpenSession : Type 0 where
  pub session_id : ℕ
  pub application_id : ℕ
  pub baseline_idle_intervals_count : ℕ
  pub baseline_open_idle_seconds : ℕ
  pub started_instant : ℕ

-- crates/ludex-daemon/src/event.rs.
pub data GameEvent : Type 0 where
  started : GameKey → String → Option String → ℕ → GameEvent
  stopped : GameKey → ℕ → GameEvent

pub data TrackerNotification : Type 0 where
  session_started : ℕ → TrackerNotification
  session_ended : ℕ → ℕ → ℕ → TrackerNotification
  application_added : ℕ → TrackerNotification

pub data Effect : Type 0 where
  notify : TrackerNotification → Effect
  spawn_enrichment : ℕ → Effect

-- The manager with all that it shares: the database, the idle tracker, the blocklist.
pub record SessionManager : Type 0 where
  pub db : Db
  pub idle_tracker : Idle.State
  pub blocklist : List GameKey
  pub open_sessions : Table GameKey OpenSession
  pub effects : List Effect

pub record Reading : Type 0 where
  pub instant : ℕ
  pub wall : ℕ
  pub grace_seconds : ℕ

-- `runtimes_for`: full and interactive runtime. The i64 difference cannot overflow, as neither number
-- is negative; what it returns is kept as the 64 bits of the columns, which for a number that is not
-- negative are the number.
pub runtimes_for : Idle.State → OpenSession → Reading → ℕ × ℕ
runtimes_for tracker o now =
    let full = min ((now.instant - o.started_instant) / nanos_per_second) i64_max in
    let billable_idle =
      billable_idle_seconds_since o.baseline_idle_intervals_count o.baseline_open_idle_seconds
        now.grace_seconds now.instant tracker in
    (full, i64_bits (clamp (sub_ℕ full billable_idle) (pos 0) (pos full)))

-- The snapshot that a heartbeat or a close writes.
pub snapshot_for : Idle.State → OpenSession → Reading → ℕ → RuntimeSnapshot
snapshot_for tracker o now at =
    let (full, interactive) = runtimes_for tracker o now in
    record { full_runtime_seconds = full; interactive_runtime_seconds = interactive; at = at }

-- What `find_or_create_application` inserts.
abbrev pub new_application : GameKey → String → Option String → ℕ → NewApplication
new_application key display_name executable_path now = record {
  launcher_type = key.launcher_type;
  launcher_id = key.launcher_id;
  product_name = display_name;
  publisher = none;
  version = none;
  executable_path = executable_path;
  launcher_exe_path = none;
  wineprefix_path = none;
  installed_flatpak_ref = none;
  graphics_platform = GraphicsPlatform.unknown;
  process_architecture = ProcessArchitecture.unknown;
  group_id = none;
  icons = record { icon_16 = none; icon_32 = none; icon_48 = none; icon_256 = none };
  first_seen_at = now;
}

-- The application, the database after the call, and what was started.
abbrev pub Ensured : Type 0
Ensured = Application × Db × List Effect

abbrev pub or_create : Option Application → NewApplication → Db → Result Ensured
or_create (some app) fresh db = ok (app, db, [])
or_create none fresh db = do
  (app, db') ← create fresh db
  ok (
    app,
    db',
    spawn_enrichment app.id ∷ notify (TrackerNotification.application_added app.id) ∷ [],
  )

pub find_or_create_application : GameKey → String → Option String → ℕ → Db → Result Ensured
find_or_create_application key display_name executable_path now db =
    or_create (find_by_key key db.applications)
      (new_application key display_name executable_path now) db

-- A result, and the manager's state, which an error does not undo.
abbrev pub Outcome : Type 0
Outcome = Result (Unit {0}) × SessionManager

abbrev pub settle : SessionManager → Result SessionManager → Outcome
settle m (ok m') = (ok tt, m')
settle m (err e) = (err e, m)

-- The manager once the application is there, and with what that started.
abbrev pub ensured : SessionManager → Ensured → SessionManager
ensured m (app, db, fx) = record m { db = db; effects = m.effects ++ fx }

-- The rest of `handle_started`: the arms of its match on `begin`.
abbrev pub begun :
    GameKey → Application → Reading → SessionManager → Result (Session × Db) → Outcome
begun key app now m (err (Error.open_session_exists _)) = (ok tt, m)
begun key app now m (err (Error.invariant why)) = (err (Error.invariant why), m)
begun key app now m (err Error.sql) = (err Error.sql, m)
begun key app now m (ok (session, db')) =
    let (count, before) = session_start_baseline now.instant m.idle_tracker in
    (
      ok tt,
      record m {
        db = db';
        open_sessions =
            insert key
              (record {
                session_id = session.id;
                application_id = app.id;
                baseline_idle_intervals_count = count;
                baseline_open_idle_seconds = before;
                started_instant = now.instant;
              })
              m.open_sessions;
        effects = m.effects ++ notify (TrackerNotification.session_started app.id) ∷ [];
      },
    )

abbrev pub open_session : GameKey → ℕ → Reading → SessionManager → Result Ensured → Outcome
open_session key at now m (err e) = (err e, m)
open_session key at now m (ok found) =
    let m' = ensured m found in begun key found.0 now m' (begin found.0.id at m'.db)

pub handle_started : GameKey → String → Option String → ℕ → Reading → SessionManager → Outcome
unfolding find_or_create_application
handle_started key display_name executable_path at now m =
    if contains m.blocklist key
    then (ok tt, m)
    else if contains_key key m.open_sessions
    then (ok tt, m)
    else open_session key at now m
        (find_or_create_application key display_name executable_path at m.db)

-- The manager after the commit, with its notification.
abbrev pub ended : OpenSession → RuntimeSnapshot → SessionManager → Db → SessionManager
ended o snapshot m db = record m {
  db = db;
  effects =
      m.effects
      ++ notify (
          TrackerNotification.session_ended o.application_id snapshot.full_runtime_seconds
            snapshot.interactive_runtime_seconds)
        ∷ [];
}

pub close_session : OpenSession → ℕ → ExitReason → Reading → SessionManager → Result SessionManager
unfolding snapshot_for
close_session o ended_at reason now m = do
  let snapshot = snapshot_for m.idle_tracker o now ended_at
  db ← close_and_rollup o.session_id o.application_id snapshot reason m.db
  ok (ended o snapshot m db)

abbrev pub stop_found : Option OpenSession → GameKey → ℕ → Reading → SessionManager → Outcome
stop_found none key at now m = (ok tt, m)
stop_found (some o) key at now m =
    let m' = record m { open_sessions = remove key m.open_sessions } in
    settle m' (close_session o at ExitReason.terminated now m')

pub handle_stopped : GameKey → ℕ → Reading → SessionManager → Outcome
unfolding close_session
handle_stopped key at now m = stop_found (lookup key m.open_sessions) key at now m

pub handle_event : GameEvent → Reading → SessionManager → Outcome
unfolding handle_started handle_stopped
handle_event (GameEvent.started key display_name executable_path at) now m =
    handle_started key display_name executable_path at now m
handle_event (GameEvent.stopped key at) now m = handle_stopped key at now m

-- The loop of `heartbeat_open_sessions`. What was written before an error stays.
pub heartbeat_all : List OpenSession → Reading → SessionManager → Outcome
unfolding snapshot_for
heartbeat_all [] now m = (ok tt, m)
heartbeat_all (o ∷ os) now m =
    elim (heartbeat o.session_id (snapshot_for m.idle_tracker o now now.wall) m.db) [
      | ok db ↦ heartbeat_all os now (record m { db = db })
      | err e ↦ (err e, m)
    ]

abbrev pub values : Table GameKey OpenSession → List OpenSession
values = map (λ entry. entry.1)

pub heartbeat_open_sessions : Reading → SessionManager → Outcome
unfolding heartbeat_all
heartbeat_open_sessions now m = heartbeat_all (values m.open_sessions) now m

-- The loop of `close_all_open`: a session that fails to close is logged and passed over.
pub close_each : List OpenSession → ExitReason → Reading → SessionManager → SessionManager
unfolding close_session
close_each [] reason now m = m
close_each (o ∷ os) reason now m =
    close_each os reason now (settle m (close_session o now.wall reason now m)).1

pub close_all_open : ExitReason → Reading → SessionManager → SessionManager
unfolding close_each
close_all_open reason now m =
    close_each (values m.open_sessions) reason now (record m { open_sessions = [] })

-- The loop of `recover_orphans`: an error ends it, and what was closed before stays closed.
pub close_orphans : List Session → Db → Result (Unit {0}) × Db
close_orphans [] db = (ok tt, db)
close_orphans (s ∷ orphans) db =
    elim (close_and_rollup s.id s.application_id
      (record {
        full_runtime_seconds = s.full_runtime_seconds;
        interactive_runtime_seconds = s.interactive_runtime_seconds;
        at = s.heartbeat_at;
      })
      ExitReason.recovered db) [ ok db' ↦ close_orphans orphans db' | err e ↦ (err e, db) ]

pub recover_orphans : Db → Result ℕ × Db
unfolding close_orphans
recover_orphans db =
    let orphans = list_all_orphans db in
    let (r, db') = close_orphans orphans db in (r >>= λ _. ok (length orphans), db')

-- What wakes the loop of `run`, in the order in which it is served. `idle` is the idle source, which
-- shares the tracker and runs beside the loop.
pub data Input : Type 0 where
  event : GameEvent → Input
  tick : Input
  idle : Bool → Input

pub step : Input × Reading → SessionManager → SessionManager
unfolding handle_event heartbeat_open_sessions
step (Input.event e, now) m = (handle_event e now m).1
step (Input.tick, now) m = (heartbeat_open_sessions now m).1
step (Input.idle b, now) m = record m { idle_tracker = Idle.set_idle now.instant b m.idle_tracker }

pub serve : List (Input × Reading) → SessionManager → SessionManager
unfolding step
serve [] m = m
serve (input ∷ inputs) m = serve inputs (step input m)

-- `run`: the inputs until the shutdown or the end of the events, and the closing of what is open.
pub run : List (Input × Reading) → Reading → SessionManager → SessionManager
unfolding serve close_all_open
run inputs last m = close_all_open ExitReason.terminated last (serve inputs m)
