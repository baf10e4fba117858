-- ===== src/Manager/Runtimes.antt =====
-- The figures that runtimes_for computes.
use ludex.Base.{ℕ, ◌≡◌, ◌+◌, min, true, leb, i64_max, arith}
use ludex.Base.Int.{pos, sub_ℕ, clamp, i64_bits}
use ludex.Idle
use ludex.Idle.{billable_idle_seconds_since}
use ludex.Store.{runtimes_checked}
use ludex.Manager.{OpenSession, Reading, runtimes_for, snapshot_for}

-- The clamped difference is the part of the full runtime that the bill leaves.
clamped :
    (full bill : ℕ) → i64_bits (clamp (sub_ℕ full bill) (pos 0) (pos full)) + min bill full ≡ full
clamped full bill = ground arith

-- What a heartbeat or a close writes, whatever the clocks and the idle tracker say: an interactive
-- runtime that makes up the full one together with the billable idle time, of which no more than the
-- full runtime is taken; so the figures pass the CHECK of the runtime columns. The full runtime is at
-- most the largest i64.
pub snapshot-checked :
    (tracker : Idle.State) (o : OpenSession) (now : Reading) (at : ℕ)
    → let s = snapshot_for tracker o now at in
      let bill =
        billable_idle_seconds_since o.baseline_idle_intervals_count o.baseline_open_idle_seconds
          now.grace_seconds now.instant tracker in
      (s.interactive_runtime_seconds + min bill s.full_runtime_seconds ≡ s.full_runtime_seconds)
      × (runtimes_checked s ≡ true)
      × (leb s.full_runtime_seconds i64_max ≡ true)
unfolding snapshot_for runtimes_for
snapshot-checked tracker o now at =
    let bill =
      billable_idle_seconds_since o.baseline_idle_intervals_count o.baseline_open_idle_seconds
        now.grace_seconds now.instant tracker in
    let (full, interactive) = runtimes_for tracker o now in
    let split = clamped full bill in (split, ground (arith, split), ground arith)
