-- ===== src/Tracker/Tests.antt =====
-- crates/ludex-daemon/src/dbus.rs and crates/ludex-core/src/repo/settings.rs: a concrete state, and the theorems at it.
use ludex.Base.{◌≡◌, refl, arith, true, false, List, [], ◌∷◌}
use ludex.Types.{ok, ◌>>=◌}
use ludex.Store.Tests.{hades}
use ludex.Settings.{Settings, set_u64, get_u64, set_bool, get_bool, to_text}
use ludex.Settings.Stored.{set-get}
use ludex.Tracker.{
  Tracker, start, set_backup_interval_hours, set_backup_retention_count, get_backup_interval_hours,
  get_backup_retention_count, read_clamped,
}
use ludex.Tracker.Coherent.{Request, IsCoherent, serve_all, serve_all-IsCoherent}
use ludex.Tracker.Floors.{scheduled, set-Scheduled}

printed : to_text 18446744073709551615 ≡ "18446744073709551615"
unfolding to_text
printed = refl

printed_zero : to_text 0 ≡ "0"
unfolding to_text
printed_zero = refl

abbrev settings : Settings
settings = ("idle_grace_seconds", "0180") ∷ ("backup_retention_count", "x") ∷ []

set-get_example :
    ((set_u64 "idle_grace_seconds" 60 settings >>= get_u64 "idle_grace_seconds" 180) ≡ ok 60)
    × ((set_bool "idle_grace_seconds" true settings >>= get_bool "idle_grace_seconds" false)
        ≡ ok true)
set-get_example =
    set-get "idle_grace_seconds" "idle_grace_seconds" 60 180 true false settings (omega arith)

abbrev requests : List Request
requests =
    Request.backup_interval 0 (omega arith)
    ∷ Request.block 1 50
    ∷ Request.block 9 51
    ∷ Request.idle_grace 240 (omega arith)
    ∷ Request.pause false
    ∷ Request.unblock 1
    ∷ []

serve_all-IsCoherent_example : IsCoherent (serve_all requests (start (hades ∷ []) settings []))
serve_all-IsCoherent_example = serve_all-IsCoherent (hades ∷ []) settings [] requests

abbrev tracker : Tracker
tracker = start (hades ∷ []) settings []

set-Scheduled_example :
    ((set_backup_interval_hours 0 tracker >>= get_backup_interval_hours) ≡ ok 1)
    × ((set_backup_interval_hours 0 tracker >>= scheduled)
        ≡ ok (record { interval = 3600; retention = (read_clamped tracker.config).retention }))
    × ((set_backup_retention_count 0 tracker >>= get_backup_retention_count) ≡ ok 1)
    × ((set_backup_retention_count 0 tracker >>= scheduled)
        ≡ ok (record { interval = (read_clamped tracker.config).interval; retention = 1 }))
set-Scheduled_example = set-Scheduled 0 0 tracker (omega arith) (omega arith)
