-- ===== src/Idle/Tests.antt =====
-- Runs of the idle tracker.
use ludex.Base.{
  ℕ, ◌≡◌, refl, ◌≤◌, Bool, true, false, some, List, [], ◌∷◌, min, i64_max, saturating_add, arith,
}
use ludex.Idle.{
  State, new, seconds_since, accumulated_idle_seconds, billable_idle_seconds_since,
  session_start_baseline, set_idle, record_idle_interval, is_idle, closed_intervals_count,
}
use ludex.Idle.Billing.{billable-bill, billable-anti, bill, intervals}
use ludex.Idle.History.{run_idle}
use ludex.Idle.Sharing.{billable-additive}

-- Ten seconds away, then away since the hundredth second.
abbrev away : State
away = record { closed_intervals_seconds = 10 ∷ []; since = some 100000000000 }

tracked :
    run_idle ((5000000000, true) ∷ (15000000000, false) ∷ (100000000000, true) ∷ []) new ≡ away
unfolding run_idle set_idle new seconds_since
tracked = refl

recorded : accumulated_idle_seconds 130000000000 (record_idle_interval 4 away) ≡ 44
unfolding accumulated_idle_seconds record_idle_interval saturating_add seconds_since
recorded = refl

counted : closed_intervals_count away ≡ 1
unfolding closed_intervals_count
counted = refl

still_away : is_idle away ≡ true
unfolding is_idle
still_away = refl

charged : billable_idle_seconds_since 0 3 5 130000000000 away ≡ 30
unfolding billable_idle_seconds_since saturating_add seconds_since
charged = refl

billable-bill_example :
    billable_idle_seconds_since 0 3 5 130000000000 away
    ≡ min (bill 3 5 (intervals 0 130000000000 away)) i64_max
billable-bill_example = billable-bill 0 3 5 130000000000 away

billable-anti_example :
    billable_idle_seconds_since 0 3 20 130000000000 away
    ≤ billable_idle_seconds_since 0 3 5 130000000000 away
billable-anti_example = billable-anti 0 3 5 20 130000000000 away (omega arith)

abbrev back : List (ℕ × Bool)
back = (120000000000, false) ∷ []

abbrev again : List (ℕ × Bool)
again = (140000000000, true) ∷ (160000000000, false) ∷ []

-- One session begins at 110 s, while the user is away, the next at 130 s; both are looked at by 170 s.
billable-additive_example :
    let s' = run_idle back away in
    let s'' = run_idle again s' in
    let (count, before) = session_start_baseline 110000000000 away in
    let (count', before') = session_start_baseline 130000000000 s' in
    billable_idle_seconds_since count before 5 170000000000 s''
    ≡ saturating_add
        (billable_idle_seconds_since count before 5 130000000000 s')
        (billable_idle_seconds_since count' before' 5 170000000000 s'')
billable-additive_example =
    billable-additive 5 110000000000 130000000000 170000000000 away back again
      (omega arith, omega arith) (omega arith, (omega arith, omega arith))
