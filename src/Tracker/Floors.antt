-- ===== src/Tracker/Floors.antt =====
-- crates/ludex-daemon/src/dbus.rs and backup.rs: the floors of the two settings of the scheduler of backups.
use ludex.Base.{ℕ, ◌≤◌, ◌≡◌, ap, max, arith, string_eq}
use ludex.Types.{Result, ok, ◌>>=◌}
use ludex.Text.{u64_max}
use ludex.Settings.{
  backup_interval_hours_key, default_backup_interval_hours, backup_retention_count_key,
  default_backup_retention_count,
}
use ludex.Settings.Stored.{set_u64-ok, insert-get_u64}
use ludex.Tracker.{
  Tracker, BackupConfig, read_clamped, hours_in_seconds, set_backup_interval_hours,
  set_backup_retention_count, get_backup_interval_hours, get_backup_retention_count,
}

-- What the scheduler reads of the state.
abbrev pub scheduled : Tracker → Result BackupConfig
scheduled t = ok (read_clamped t.config)

abbrev clamped : ℕ → ℕ → Result BackupConfig
clamped seconds kept = ok (record { interval = seconds; retention = kept })

at_least_hour : (hours : ℕ) → 1 ≤ hours → max (hours_in_seconds hours) 3600 ≡ hours_in_seconds hours
at_least_hour hours h = omega (arith, h)

at_least_one : (count : ℕ) → max (max count 1) 1 ≡ max count 1
at_least_one count = omega arith

-- A cadence or a count that the service stores is read back as at least one, and it is what the scheduler then works
-- with: the cadence in seconds, up to the greatest `u64`, and the count, while the other of the two stays as it was.
pub set-Scheduled :
    (hours count : ℕ) (t : Tracker)
    → hours ≤ u64_max
    → count ≤ u64_max
    → ((set_backup_interval_hours hours t >>= get_backup_interval_hours) ≡ ok (max hours 1))
      × ((set_backup_interval_hours hours t >>= scheduled)
          ≡ ok (record {
            interval = hours_in_seconds (max hours 1);
            retention = (read_clamped t.config).retention;
          }))
      × ((set_backup_retention_count count t >>= get_backup_retention_count) ≡ ok (max count 1))
      × ((set_backup_retention_count count t >>= scheduled)
          ≡ ok (record { interval = (read_clamped t.config).interval; retention = max count 1 }))
unfolding set_backup_interval_hours set_backup_retention_count get_backup_interval_hours
    get_backup_retention_count read_clamped
set-Scheduled hours count t hours_le count_le =
    rw (set_u64-ok backup_interval_hours_key (max hours 1) t.settings) rw
      (set_u64-ok backup_retention_count_key (max count 1) t.settings)
      (
        insert-get_u64 backup_interval_hours_key backup_interval_hours_key (max hours 1)
            default_backup_interval_hours t.settings (omega (arith, hours_le)),
        ap (λ seconds. clamped seconds (max t.config.backup.retention 1))
            (at_least_hour (max hours 1) (omega arith)),
        insert-get_u64 backup_retention_count_key backup_retention_count_key (max count 1)
            default_backup_retention_count t.settings (omega (arith, count_le)),
        ap (clamped (max t.config.backup.interval 3600)) (at_least_one count),
      )
