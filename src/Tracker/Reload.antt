-- ===== src/Tracker/Reload.antt =====
-- crates/ludex-daemon/src/daemon.rs, `resolve_tracker_config`: what is loaded after a setting was stored.
use ludex.Base.{
  ℕ, ◌≤◌, ◌≡◌, refl, ap, ◌∙◌, Bool, false, String, arith, ◌==◌, string_eq, if◌then◌else◌,
}
use ludex.Base.Table.{lookup-insert, insert}
use ludex.Types.{key_eq}
use ludex.Text.{u64_max}
use ludex.Settings.{
  Settings, to_text, bool_text, get_u64, get_bool, gpu_memory_threshold_key,
  alt_tab_grace_seconds_key, pause_when_backgrounded_key, idle_grace_seconds_key,
  backup_interval_hours_key, backup_retention_count_key, default_gpu_memory_threshold_bytes,
  default_alt_tab_grace_seconds, default_pause_when_backgrounded, default_idle_grace_seconds,
  default_backup_interval_hours, default_backup_retention_count, get_raw, u64_or, bool_or,
}
use ludex.Settings.Stored.{insert-get_u64, insert-get_bool}
use ludex.Tracker.{
  TrackerConfig, ok_or, resolve_tracker_config, load_u64, load_bool, hours_in_seconds,
}

load_u64-stored :
    (key other : String) (value fallback : ℕ) (settings : Settings)
    → value ≤ u64_max
    → load_u64 (insert key (to_text value) settings) other fallback
      ≡ (if key == other then value else load_u64 settings other fallback)
unfolding load_u64
load_u64-stored key other value fallback settings le =
    ground (arith, insert-get_u64 key other value fallback settings le)

load_u64-other :
    (key other text : String) (fallback : ℕ) (settings : Settings)
    → (key == other) ≡ false
    → load_u64 (insert key text settings) other fallback ≡ load_u64 settings other fallback
unfolding load_u64 get_u64 get_raw
load_u64-other key other text fallback settings apart =
    ap (λ o. ok_or fallback (u64_or fallback o)) (lookup-insert key other text settings)
    ∙ rw apart refl

load_bool-stored :
    (key : String) (value fallback : Bool) (settings : Settings)
    → load_bool (insert key (bool_text value) settings) key fallback ≡ value
unfolding load_bool
load_bool-stored key value fallback settings =
    ground (arith, insert-get_bool key key value fallback settings, string_eq.beq_iff key key)

load_bool-other :
    (key other text : String) (fallback : Bool) (settings : Settings)
    → (key == other) ≡ false
    → load_bool (insert key text settings) other fallback ≡ load_bool settings other fallback
unfolding load_bool get_bool get_raw
load_bool-other key other text fallback settings apart =
    ap (λ o. ok_or fallback (bool_or fallback o)) (lookup-insert key other text settings)
    ∙ rw apart refl

-- What is loaded after a number was stored under a key that is not that of the pause.
abbrev pub with_u64 : String → ℕ → TrackerConfig → TrackerConfig
with_u64 key value c = record c {
  gpu_memory_threshold_bytes =
      if key == gpu_memory_threshold_key then value else c.gpu_memory_threshold_bytes;
  alt_tab_grace = if key == alt_tab_grace_seconds_key then value else c.alt_tab_grace;
  idle_grace = if key == idle_grace_seconds_key then value else c.idle_grace;
  backup = record {
    interval =
        if key == backup_interval_hours_key then hours_in_seconds value else c.backup.interval;
    retention = if key == backup_retention_count_key then value else c.backup.retention;
  };
}

pub resolve-stored :
    (key : String) (value : ℕ) (settings : Settings)
    → value ≤ u64_max
    → (key == pause_when_backgrounded_key) ≡ false
    → resolve_tracker_config (insert key (to_text value) settings)
      ≡ with_u64 key value (resolve_tracker_config settings)
unfolding resolve_tracker_config
resolve-stored key value settings le apart = ground (
  arith,
  load_u64-stored key gpu_memory_threshold_key value default_gpu_memory_threshold_bytes settings le,
  load_u64-stored key alt_tab_grace_seconds_key value default_alt_tab_grace_seconds settings le,
  load_u64-stored key idle_grace_seconds_key value default_idle_grace_seconds settings le,
  load_u64-stored key backup_interval_hours_key value default_backup_interval_hours settings le,
  load_u64-stored key backup_retention_count_key value default_backup_retention_count settings le,
  load_bool-other key pause_when_backgrounded_key (to_text value) default_pause_when_backgrounded
      settings apart,
)

abbrev pub with_pause : Bool → TrackerConfig → TrackerConfig
with_pause paused c = record c { pause_when_backgrounded = paused }

pub resolve-paused :
    (paused : Bool) (settings : Settings)
    → resolve_tracker_config (insert pause_when_backgrounded_key (bool_text paused) settings)
      ≡ with_pause paused (resolve_tracker_config settings)
unfolding resolve_tracker_config
resolve-paused paused settings = ground (
  arith,
  load_bool-stored pause_when_backgrounded_key paused default_pause_when_backgrounded settings,
  load_u64-other pause_when_backgrounded_key gpu_memory_threshold_key (bool_text paused)
      default_gpu_memory_threshold_bytes settings refl,
  load_u64-other pause_when_backgrounded_key alt_tab_grace_seconds_key (bool_text paused)
      default_alt_tab_grace_seconds settings refl,
  load_u64-other pause_when_backgrounded_key idle_grace_seconds_key (bool_text paused)
      default_idle_grace_seconds settings refl,
  load_u64-other pause_when_backgrounded_key backup_interval_hours_key (bool_text paused)
      default_backup_interval_hours settings refl,
  load_u64-other pause_when_backgrounded_key backup_retention_count_key (bool_text paused)
      default_backup_retention_count settings refl,
)
