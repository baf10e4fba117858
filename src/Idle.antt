-- ===== src/Idle.antt =====
-- crates/ludex-daemon/src/idle.rs: the idle tracker. An `Instant` is a number of nanoseconds on the
-- monotonic clock, and each operation takes the instant at which it reads the clock. The mutex makes
-- each operation one step on the state. Durations are `i64`s that are not negative.
pub mod Billing
pub mod History
pub mod Sharing
mod Tests
use ludex.Base.{
  ℕ, suc, ◌+◌, ◌-◌, min, max, Bool, true, false, Option, none, some, List, [], ◌∷◌, ◌++◌, foldl,
  saturating_add, length, drop, is_some, i64_max,
}
use Prim.Native.Nat.{◌/◌}

pub record State : Type 0 where
  pub closed_intervals_seconds : List ℕ
  pub since : Option ℕ

pub new : State
new = record { closed_intervals_seconds = []; since = none }

abbrev pub nanos_per_second : ℕ
nanos_per_second = 1000000000

-- `i64::try_from(t.elapsed().as_secs()).unwrap_or(i64::MAX)`, read at `now`.
pub seconds_since : ℕ → ℕ → ℕ
seconds_since now t = min ((now - t) / nanos_per_second) i64_max

abbrev pub open_seconds : ℕ → Option ℕ → ℕ
open_seconds now none = 0
open_seconds now (some t) = seconds_since now t

pub accumulated_idle_seconds : ℕ → State → ℕ
accumulated_idle_seconds now s =
    let total = foldl saturating_add 0 s.closed_intervals_seconds in add_open s.since total
  where
    add_open : Option ℕ → ℕ → ℕ
    add_open none total = total
    add_open (some t) total = saturating_add total (seconds_since now t)

pub closed_intervals_count : State → ℕ
closed_intervals_count s = length s.closed_intervals_seconds

pub session_start_baseline : ℕ → State → ℕ × ℕ
session_start_baseline now s = (length s.closed_intervals_seconds, open_seconds now s.since)

-- What one interval adds to the bill: `max(0, dur - forgiven)`.
abbrev pub forgiven : Bool → ℕ → ℕ → ℕ
forgiven true baseline_open grace = max baseline_open grace
forgiven false baseline_open grace = grace

abbrev pub bill_interval : ℕ → ℕ → ℕ × Bool → ℕ → ℕ × Bool
bill_interval baseline_open grace (total, first) dur =
    (saturating_add total (dur - forgiven first baseline_open grace), false)

abbrev pub bill_open : ℕ → ℕ → ℕ → Option ℕ → ℕ × Bool → ℕ
bill_open baseline_open grace now none (total, first) = total
bill_open baseline_open grace now (some t) bill =
    (bill_interval baseline_open grace bill (seconds_since now t)).0

pub billable_idle_seconds_since : ℕ → ℕ → ℕ → ℕ → State → ℕ
billable_idle_seconds_since baseline_count baseline_open grace now s =
    bill_open baseline_open grace now s.since (
      foldl (bill_interval baseline_open grace) (0, true)
        (drop baseline_count s.closed_intervals_seconds))

pub is_idle : State → Bool
is_idle s = is_some s.since

-- `set_idle(idle)` at the instant `now`.
abbrev pub transition : State → ℕ → Option ℕ → Bool → State
transition s now none true = record s { since = some now }
transition s now none false = s
transition s now (some t) true = s
transition s now (some t) false = record {
  closed_intervals_seconds = s.closed_intervals_seconds ++ seconds_since now t ∷ [];
  since = none;
}

pub set_idle : ℕ → Bool → State → State
set_idle now idle s = transition s now s.since idle

pub record_idle_interval : ℕ → State → State
record_idle_interval seconds s = record s {
  closed_intervals_seconds = s.closed_intervals_seconds ++ seconds ∷ [];
}
