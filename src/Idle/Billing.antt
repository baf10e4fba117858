-- ===== src/Idle/Billing.antt =====
-- The bill of billable_idle_seconds_since as a sum over the idle intervals that a session sees.
use ludex.Base.{
  ℕ, ◌+◌, ◌-◌, ◌≤◌, ◌≡◌, ◌∙◌, min, max, true, false, Option, none, some, List, [], ◌∷◌, ◌++◌, foldl,
  arith, saturating_add, saturating_add_lem, drop, i64_max,
}
use ludex.Idle.{State, seconds_since, bill_interval, bill_open, billable_idle_seconds_since}

-- Each interval is forgiven `grace`.
abbrev pub bill_rest : ℕ → List ℕ → ℕ
bill_rest grace [] = 0
bill_rest grace (dur ∷ durs) = (dur - grace) + bill_rest grace durs

-- The first is forgiven what had passed of it before the session, if that is more.
abbrev pub bill : ℕ → ℕ → List ℕ → ℕ
bill baseline_open grace [] = 0
bill baseline_open grace (dur ∷ durs) = (dur - max baseline_open grace) + bill_rest grace durs

abbrev pub open_interval : ℕ → Option ℕ → List ℕ
open_interval now none = []
open_interval now (some t) = seconds_since now t ∷ []

-- The intervals after a session's baseline, the one still open among them.
abbrev pub intervals : ℕ → ℕ → State → List ℕ
intervals count now s = drop count s.closed_intervals_seconds ++ open_interval now s.since

pub bill_rest-append :
    (grace : ℕ) (xs ys : List ℕ)
    → bill_rest grace (xs ++ ys) ≡ bill_rest grace xs + bill_rest grace ys
bill_rest-append grace [] ys = omega arith
bill_rest-append grace (x ∷ xs) ys = omega (arith, bill_rest-append grace xs ys)

bill_later :
    (baseline_open grace total now : ℕ) (since : Option ℕ) (durs : List ℕ)
    → total ≤ i64_max
    → bill_open baseline_open grace now since
        (foldl (bill_interval baseline_open grace) (total, false) durs)
      ≡ min (total + bill_rest grace (durs ++ open_interval now since)) i64_max
bill_later baseline_open grace total now none [] h = omega arith
bill_later baseline_open grace total now (some t) [] h =
    omega (arith, saturating_add_lem total (seconds_since now t - grace))
bill_later baseline_open grace total now since (dur ∷ durs) h =
    let next = saturating_add_lem total (dur - grace) in
    bill_later baseline_open grace (saturating_add total (dur - grace)) now since durs
      (omega (arith, next))
    ∙ omega (arith, next)

bill_first :
    (baseline_open grace now : ℕ) (since : Option ℕ) (durs : List ℕ)
    → bill_open baseline_open grace now since
        (foldl (bill_interval baseline_open grace) (0, true) durs)
      ≡ min (bill baseline_open grace (durs ++ open_interval now since)) i64_max
bill_first baseline_open grace now none [] = omega arith
bill_first baseline_open grace now (some t) [] =
    omega (arith, saturating_add_lem 0 (seconds_since now t - max baseline_open grace))
bill_first baseline_open grace now since (dur ∷ durs) =
    let next = saturating_add_lem 0 (dur - max baseline_open grace) in
    bill_later baseline_open grace (saturating_add 0 (dur - max baseline_open grace)) now since durs
      (omega (arith, next))
    ∙ omega (arith, next)

-- The loop of the code computes the bill of the intervals since the baseline: the first forgiven the
-- larger of the earlier idle time and the grace, each later one the grace, summed and held at
-- `i64::MAX`.
pub billable-bill :
    (count baseline_open grace now : ℕ) (s : State)
    → billable_idle_seconds_since count baseline_open grace now s
      ≡ min (bill baseline_open grace (intervals count now s)) i64_max
unfolding billable_idle_seconds_since
billable-bill count baseline_open grace now s =
    bill_first baseline_open grace now s.since (drop count s.closed_intervals_seconds)

bill_rest-anti :
    (grace grace' : ℕ) (durs : List ℕ)
    → grace ≤ grace'
    → bill_rest grace' durs ≤ bill_rest grace durs
bill_rest-anti grace grace' [] h = omega arith
bill_rest-anti grace grace' (dur ∷ durs) h = omega (arith, bill_rest-anti grace grace' durs h)

bill-anti :
    (baseline_open grace grace' : ℕ) (durs : List ℕ)
    → grace ≤ grace'
    → bill baseline_open grace' durs ≤ bill baseline_open grace durs
bill-anti baseline_open grace grace' [] h = omega arith
bill-anti baseline_open grace grace' (dur ∷ durs) h =
    omega (arith, bill_rest-anti grace grace' durs h)

-- A longer cutscene grace never bills more.
pub billable-anti :
    (count baseline_open grace grace' now : ℕ) (s : State)
    → grace ≤ grace'
    → billable_idle_seconds_since count baseline_open grace' now s
      ≤ billable_idle_seconds_since count baseline_open grace now s
billable-anti count baseline_open grace grace' now s h = omega (
  arith,
  billable-bill count baseline_open grace now s,
  billable-bill count baseline_open grace' now s,
  bill-anti baseline_open grace grace' (intervals count now s) h,
)
