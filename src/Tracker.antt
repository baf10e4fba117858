-- ===== src/Tracker.antt =====
-- crates/ludex-daemon/src/dbus.rs, config.rs, daemon.rs and crates/ludex-core/src/repo/blocked.rs: the state that the
-- service shares with the manager, the gate and the scheduler of backups, and the requests that change it. A
-- `Duration` is a number of seconds. The `Failed` of an answer is written as the error whose text it carries.

pub mod Reload
pub mod Blocking
pub mod Coherent
pub mod Floors
mod Tests
use ludex.Base.{
  ℕ, suc, ◌*◌, min, max, Bool, true, false, not, Option, none, some, List, [], ◌∷◌, String, Eq,
  ◌==◌, string_eq, if◌then◌else◌, map,
}
use Prim.Native.Nat.{◌/◌}
use ludex.Base.Table.{Table, contains, contains_key, remove}
use ludex.Types.{Application, GameKey, key_eq, key_beq, Result, ok, err, Error, ◌>>=◌}
use ludex.Text.{u64_max}
use ludex.Store.Edits.{find_application}
use ludex.Settings.{
  Settings, get_u64, get_bool, set_u64, set_bool, gpu_memory_threshold_key,
  default_gpu_memory_threshold_bytes, backup_interval_hours_key, default_backup_interval_hours,
  backup_retention_count_key, default_backup_retention_count, alt_tab_grace_seconds_key,
  default_alt_tab_grace_seconds, pause_when_backgrounded_key, default_pause_when_backgrounded,
  idle_grace_seconds_key, default_idle_grace_seconds,
}

pub record BackupConfig : Type 0 where
  pub interval : ℕ
  pub retention : ℕ

-- The part of `TrackerConfig` that a setting stands behind.
pub record TrackerConfig : Type 0 where
  pub gpu_memory_threshold_bytes : ℕ
  pub alt_tab_grace : ℕ
  pub pause_when_backgrounded : Bool
  pub idle_grace : ℕ
  pub backup : BackupConfig

abbrev pub ok_or {ℓ} : {A : Type ℓ} → A → Result A → A
ok_or fallback (err e) = fallback
ok_or fallback (ok a) = a

-- `load_u64`.
unfoldable pub load_u64 : Settings → String → ℕ → ℕ
unfolding get_u64
load_u64 settings key fallback = ok_or fallback (get_u64 key fallback settings)

-- `load_bool`.
unfoldable pub load_bool : Settings → String → Bool → Bool
unfolding get_bool
load_bool settings key fallback = ok_or fallback (get_bool key fallback settings)

-- `saturating_mul(3_600)`.
abbrev pub hours_in_seconds : ℕ → ℕ
hours_in_seconds hours = min (hours * 3600) u64_max

-- `resolve_tracker_config`.
unfoldable pub resolve_tracker_config : Settings → TrackerConfig
unfolding load_u64 load_bool
resolve_tracker_config settings = record {
  gpu_memory_threshold_bytes =
      load_u64 settings gpu_memory_threshold_key default_gpu_memory_threshold_bytes;
  alt_tab_grace = load_u64 settings alt_tab_grace_seconds_key default_alt_tab_grace_seconds;
  pause_when_backgrounded =
      load_bool settings pause_when_backgrounded_key default_pause_when_backgrounded;
  idle_grace = load_u64 settings idle_grace_seconds_key default_idle_grace_seconds;
  backup = record {
    interval =
        hours_in_seconds
          (load_u64 settings backup_interval_hours_key default_backup_interval_hours);
    retention = load_u64 settings backup_retention_count_key default_backup_retention_count;
  };
}

abbrev pub min_interval_seconds : ℕ
min_interval_seconds = 3600

-- `read_clamped` of backup.rs.
unfoldable pub read_clamped : TrackerConfig → BackupConfig
read_clamped config = record {
  interval = max config.backup.interval min_interval_seconds;
  retention = max config.backup.retention 1;
}

-- `blocked_applications`: a key, and the time at which it was added.
abbrev pub Blocked : Type 0
Blocked = Table GameKey ℕ

-- `BlockedRepo::list`, a set.
unfoldable pub list_blocked : Blocked → List GameKey
list_blocked rows = map (λ row. row.0) rows

-- `BlockedRepo::insert`, and whether the row is new.
unfoldable pub insert_blocked : GameKey → ℕ → Blocked → Bool × Blocked
unfolding contains_key
insert_blocked key at rows =
    if contains_key key rows then (false, rows) else (true, (key, at) ∷ rows)

-- `BlockedRepo::remove`, and whether there was a row.
unfoldable pub remove_blocked : GameKey → Blocked → Bool × Blocked
unfolding contains_key remove
remove_blocked key rows = (contains_key key rows, remove key rows)

-- `HashSet::insert` and `HashSet::remove`.
abbrev pub include : GameKey → List GameKey → List GameKey
unfolding contains
include key set = if contains set key then set else key ∷ set

abbrev pub exclude : GameKey → List GameKey → List GameKey
exclude key [] = []
exclude key (k ∷ set) = if k == key then exclude key set else k ∷ exclude key set

-- What the service reads and writes.
pub record Tracker : Type 0 where
  pub applications : List Application
  pub settings : Settings
  pub blocked : Blocked
  pub blocklist : List GameKey
  pub config : TrackerConfig

-- The start of the daemon: the configuration and the blocklist are read from the database.
pub start : List Application → Settings → Blocked → Tracker
unfolding resolve_tracker_config list_blocked
start applications settings blocked = record {
  applications = applications;
  settings = settings;
  blocked = blocked;
  blocklist = list_blocked blocked;
  config = resolve_tracker_config settings;
}

-- `set_gpu_memory_threshold_bytes`.
unfoldable pub set_gpu_memory_threshold_bytes : ℕ → Tracker → Result Tracker
unfolding set_u64
set_gpu_memory_threshold_bytes bytes t = do
  settings ← set_u64 gpu_memory_threshold_key bytes t.settings
  ok (record t {
    settings = settings;
    config = record t.config { gpu_memory_threshold_bytes = bytes };
  })

-- `set_alt_tab_grace_seconds`.
unfoldable pub set_alt_tab_grace_seconds : ℕ → Tracker → Result Tracker
unfolding set_u64
set_alt_tab_grace_seconds seconds t = do
  settings ← set_u64 alt_tab_grace_seconds_key seconds t.settings
  ok (record t { settings = settings; config = record t.config { alt_tab_grace = seconds } })

-- `set_pause_when_backgrounded`.
unfoldable pub set_pause_when_backgrounded : Bool → Tracker → Result Tracker
unfolding set_bool
set_pause_when_backgrounded pause t = do
  settings ← set_bool pause_when_backgrounded_key pause t.settings
  ok (record t {
    settings = settings;
    config = record t.config { pause_when_backgrounded = pause };
  })

-- `set_idle_grace_seconds`.
unfoldable pub set_idle_grace_seconds : ℕ → Tracker → Result Tracker
unfolding set_u64
set_idle_grace_seconds seconds t = do
  settings ← set_u64 idle_grace_seconds_key seconds t.settings
  ok (record t { settings = settings; config = record t.config { idle_grace = seconds } })

-- `set_backup_interval_hours`.
unfoldable pub set_backup_interval_hours : ℕ → Tracker → Result Tracker
unfolding set_u64
set_backup_interval_hours hours t =
    let floored = max hours (min_interval_seconds / 3600) in
    do
      settings ← set_u64 backup_interval_hours_key floored t.settings
      ok (record t {
        settings = settings;
        config = record t.config {
          backup = record t.config.backup { interval = hours_in_seconds floored };
        };
      })

-- `set_backup_retention_count`; a `usize` is a `u64`.
unfoldable pub set_backup_retention_count : ℕ → Tracker → Result Tracker
unfolding set_u64
set_backup_retention_count count t =
    let floored = max count 1 in
    do
      settings ← set_u64 backup_retention_count_key floored t.settings
      ok (record t {
        settings = settings;
        config = record t.config { backup = record t.config.backup { retention = floored } };
      })

abbrev pub game_key_of : Application → GameKey
game_key_of app = record { launcher_type = app.launcher_type; launcher_id = app.launcher_id }

abbrev pub no_application : Error
no_application = Error.invariant "no application with id"

abbrev pub block_found : Option Application → ℕ → Tracker → Result Tracker
block_found none at t = err no_application
block_found (some app) at t = ok (record t {
  blocked = (insert_blocked (game_key_of app) at t.blocked).1;
  blocklist = include (game_key_of app) t.blocklist;
})

-- `block_application`, at a time.
unfoldable pub block_application : ℕ → ℕ → Tracker → Result Tracker
unfolding find_application insert_blocked contains
block_application id at t = block_found (find_application id t.applications) at t

abbrev pub unblock_found : Option Application → Tracker → Result Tracker
unblock_found none t = err no_application
unblock_found (some app) t = ok (record t {
  blocked = (remove_blocked (game_key_of app) t.blocked).1;
  blocklist = exclude (game_key_of app) t.blocklist;
})

-- `unblock_application`.
unfoldable pub unblock_application : ℕ → Tracker → Result Tracker
unfolding find_application remove_blocked
unblock_application id t = unblock_found (find_application id t.applications) t

-- `get_backup_interval_hours` and `get_backup_retention_count`.
pub get_backup_interval_hours : Tracker → Result ℕ
unfolding get_u64
get_backup_interval_hours t =
    get_u64 backup_interval_hours_key default_backup_interval_hours t.settings

pub get_backup_retention_count : Tracker → Result ℕ
unfolding get_u64
get_backup_retention_count t =
    get_u64 backup_retention_count_key default_backup_retention_count t.settings
