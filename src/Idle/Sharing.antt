-- ===== src/Idle/Sharing.antt =====
-- Two sessions that meet: what the tracker bills to each, over any transitions of the idle source.
use ludex.Base.{
  ℕ, ◌+◌, ◌≤◌, ◌≡◌, refl, ap, inl, inr, Bool, Option, none, some, List, [], ◌∷◌, ◌++◌, arith,
  length, drop, saturating_add, saturating_add_lem,
}
use mathlib.Core.List.{append_assoc}
use ludex.Idle.{
  State, seconds_since, open_seconds, session_start_baseline, billable_idle_seconds_since,
}
use ludex.Idle.Billing.{bill, bill_rest-append, open_interval, intervals, billable-bill}
use ludex.Idle.History.{
  Follows, Open, Between, run_idle, run_idle-Follows, Follows-start, Between-le, seconds_since_mono,
}

drop-length {ℓ} : {A : Type ℓ} (xs ys : List A) → drop (length xs) (xs ++ ys) ≡ ys
drop-length [] ys = refl
drop-length (x ∷ xs) ys = drop-length xs ys

-- The intervals that a session sees which began at `s`.
intervals-Follows :
    (now later : ℕ) (s s' : State) (f : Follows now s s')
    → intervals (session_start_baseline now s).0 later s' ≡ f.more ++ open_interval later s'.since
unfolding session_start_baseline
intervals-Follows now later s s' f = rw (f.appended, drop-length s.closed_intervals_seconds f.more)

-- The interval that was open at `now` comes first among those seen later, and is not shorter.
opened-first :
    (now later t : ℕ) (more : List ℕ) (since : Option ℕ)
    → now ≤ later
    → Open now (some t) more since
    → (dur : ℕ) × (rest : List ℕ) × (more ++ open_interval later since ≡ dur ∷ rest)
      × (seconds_since now t ≤ dur)
opened-first now later t more since le (inl (none_sealed, still)) =
    (seconds_since later t, [], rw (none_sealed, still), seconds_since_mono now later t le)
opened-first now later t more since le (inr (dur, rest, sealed, longer)) =
    (dur, rest ++ open_interval later since, rw sealed, longer)

-- If no interval has been sealed since a session began, what was open at its start is open still.
start-le :
    (from now : ℕ) (start since : Option ℕ)
    → from ≤ now
    → Open from start [] since
    → open_seconds from start ≤ open_seconds now since
start-le from now none since le h = omega arith
start-le from now (some u) since le (inl (_, still)) = rw still (seconds_since_mono from now u le)
start-le from now (some u) since le (inr (dur, rest, sealed, _)) = cc

bill_none :
    (before grace : ℕ) (more seen : List ℕ)
    → (more ≡ [] → before ≤ 0)
    → bill before grace (more ++ seen) ≡ bill before grace (more ++ []) + bill 0 grace seen
bill_none before grace [] [] h = omega arith
bill_none before grace [] (dur ∷ seen) h = omega (arith, h refl)
bill_none before grace (dur ∷ more) [] h = omega arith
bill_none before grace (dur ∷ more) (x ∷ seen) h =
    omega (arith, bill_rest-append grace more (x ∷ seen), bill_rest-append grace more [])

bill_some :
    (before between grace dur : ℕ) (more rest : List ℕ)
    → (more ≡ [] → before ≤ between)
    → between ≤ dur
    → bill before grace (more ++ dur ∷ rest)
      ≡ bill before grace (more ++ between ∷ []) + bill between grace (dur ∷ rest)
bill_some before between grace dur [] rest h le = omega (arith, h refl)
bill_some before between grace dur (x ∷ more) rest h le =
    omega
      (arith, bill_rest-append grace more (dur ∷ rest), bill_rest-append grace more (between ∷ []))

-- The intervals up to `now` and those after it, with the one open at `now` cut in two.
bill-split :
    (grace from now later : ℕ) (start since last : Option ℕ) (more more' : List ℕ)
    → from ≤ now
    → now ≤ later
    → Open from start more since
    → Open now since more' last
    → bill (open_seconds from start) grace (more ++ more' ++ open_interval later last)
      ≡ bill (open_seconds from start) grace (more ++ open_interval now since)
        + bill (open_seconds now since) grace (more' ++ open_interval later last)
bill-split grace from now later start none last more more' le le' h h' =
    rw (append_assoc more more' (open_interval later last)) (
      bill_none (open_seconds from start) grace more (more' ++ open_interval later last)
        (λ e. start-le from now start none le (rw e at h)))
bill-split grace from now later start (some t) last more more' le le' h h' =
    let (dur, rest, first, longer) = opened-first now later t more' last le' h' in
    rw (append_assoc more more' (open_interval later last), first)
      (bill_some (open_seconds from start) (seconds_since now t) grace dur more rest
        (λ e. start-le from now start (some t) le (rw e at h)) longer)

intervals_both :
    (from now later : ℕ) (s s' s'' : State) (f : Follows from s s') (f' : Follows now s' s'')
    → intervals (length s.closed_intervals_seconds) later s''
      ≡ f.more ++ f'.more ++ open_interval later s''.since
intervals_both from now later s s' s'' f f' =
    rw (f'.appended, f.appended, append_assoc s.closed_intervals_seconds f.more f'.more)
      (rw (drop-length s.closed_intervals_seconds (f.more ++ f'.more)))

-- A session begins at `from` in state `s` and is billed at `now`, when another session begins; the
-- idle source goes on until `later`. With the same grace, a session over the whole time would be
-- billed what the first was billed at `now` and what the second is billed at `later` (up to the
-- saturation at `i64::MAX`): the idle time that both touch is charged once, and its grace forgiven
-- once, whatever the transitions were.
pub billable-additive :
    (grace from now later : ℕ) (s : State) (events events' : List (ℕ × Bool))
    → Between from now events
    → Between now later events'
    → let s' = run_idle events s in
      let s'' = run_idle events' s' in
      let (count, before) = session_start_baseline from s in
      let (count', before') = session_start_baseline now s' in
      billable_idle_seconds_since count before grace later s''
      ≡ saturating_add
          (billable_idle_seconds_since count before grace now s')
          (billable_idle_seconds_since count' before' grace later s'')
unfolding session_start_baseline
billable-additive grace from now later s events events' h h' =
    let s' = run_idle events s in
    let s'' = run_idle events' s' in
    let f = run_idle-Follows events from from now s s (omega arith) h (Follows-start from s) in
    let f' = run_idle-Follows events' now now later s' s' (omega arith) h' (Follows-start now s') in
    let before = open_seconds from s.since in
    let between = open_seconds now s'.since in
    let whole = ap (bill before grace) (intervals_both from now later s s' s'' f f') in
    let first = ap (bill before grace) (intervals-Follows from now s s' f) in
    let second = ap (bill between grace) (intervals-Follows now later s' s'' f') in
    let split =
      bill-split grace from now later s.since s'.since s''.since f.more f'.more
        (Between-le events from now h) (Between-le events' now later h') f.opened f'.opened in
    omega (
      arith,
      whole,
      first,
      second,
      split,
      billable-bill (length s.closed_intervals_seconds) before grace later s'',
      billable-bill (length s.closed_intervals_seconds) before grace now s',
      billable-bill (length s'.closed_intervals_seconds) between grace later s'',
      saturating_add_lem
          (billable_idle_seconds_since (length s.closed_intervals_seconds) before grace now s')
          (billable_idle_seconds_since (length s'.closed_intervals_seconds) between grace later
            s''),
    )
