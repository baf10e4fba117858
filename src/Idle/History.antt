-- ===== src/Idle/History.antt =====
-- How the tracker's state moves on: transitions in the order of their instants.
use ludex.Base.{
  ℕ, ◌≤◌, ◌≡◌, refl, sym, ◌⊎◌, inl, inr, Bool, true, false, Option, none, some, List, [], ◌∷◌, ◌++◌,
  arith,
}
use mathlib.Core.List.{append-nil, append_assoc}
use ludex.Idle.{State, seconds_since, set_idle, transition}

-- Transitions of the idle source, each with its instant.
unfoldable pub run_idle : List (ℕ × Bool) → State → State
run_idle [] s = s
run_idle ((at, idle) ∷ events) s = run_idle events (set_idle at idle s)

-- The instants rise from `from` on, and none is later than `to`.
abbrev pub Between : ℕ → ℕ → List (ℕ × Bool) → Type 0
Between from to [] = from ≤ to
Between from to ((at, idle) ∷ events) = (from ≤ at) × Between at to events

-- What became of the interval that was open at `now`: it is open still, or it is the next to be
-- sealed, and is not shorter by then.
abbrev pub Open : ℕ → Option ℕ → List ℕ → Option ℕ → Type 0
Open now none more later = Unit {0}
Open now (some t) more later =
    ((more ≡ []) × (later ≡ some t))
    ⊎ ((dur : ℕ) × (rest : List ℕ) × (more ≡ dur ∷ rest) × (seconds_since now t ≤ dur))

-- The state at a later instant: intervals are only added.
pub record Follows (now : ℕ) (s : State) (s' : State) : Type 0 where
  pub more : List ℕ
  pub appended : s'.closed_intervals_seconds ≡ s.closed_intervals_seconds ++ more
  pub opened : Open now s.since more s'.since

pub seconds_since_mono : (now now' t : ℕ) → now ≤ now' → seconds_since now t ≤ seconds_since now' t
unfolding seconds_since
seconds_since_mono now now' t h = omega arith

Open-start : (now : ℕ) (since : Option ℕ) → Open now since [] since
Open-start now none = tt
Open-start now (some t) = inl (refl, refl)

pub Follows-start : (now : ℕ) (s : State) → Follows now s s
Follows-start now s = record {
  more = [];
  appended = sym (append-nil s.closed_intervals_seconds);
  opened = Open-start now s.since;
}

-- A sealed interval is added at the end.
Open-seal :
    (now at t : ℕ) (since : Option ℕ) (more : List ℕ)
    → now ≤ at
    → Open now since more (some t)
    → Open now since (more ++ seconds_since at t ∷ []) none
Open-seal now at t none more le h = tt
Open-seal now at t (some u) [] le h =
    inr (seconds_since at t, [], refl, ground (arith, seconds_since_mono now at u, h))
Open-seal now at t (some u) (dur ∷ more) le h =
    inr (dur, more ++ seconds_since at t ∷ [], refl, ground arith)

Open-begin :
    (now at : ℕ) (since : Option ℕ) (more : List ℕ)
    → Open now since more none
    → Open now since more (some at)
Open-begin now at none more h = tt
Open-begin now at (some u) more (inl (e, absent)) = cc
Open-begin now at (some u) more (inr sealed) = inr sealed

transition-Follows :
    (now at : ℕ) (s s' : State) (since' : Option ℕ) (idle : Bool)
    → s'.since ≡ since'
    → now ≤ at
    → Follows now s s'
    → Follows now s (transition s' at since' idle)
transition-Follows now at s s' none true e le f = record {
  more = f.more;
  appended = f.appended;
  opened = Open-begin now at s.since f.more (rw e at f.opened);
}
transition-Follows now at s s' none false e le f = f
transition-Follows now at s s' (some t) true e le f = f
transition-Follows now at s s' (some t) false e le f = record {
  more = f.more ++ seconds_since at t ∷ [];
  appended =
      rw f.appended (append_assoc s.closed_intervals_seconds f.more (seconds_since at t ∷ []));
  opened = Open-seal now at t s.since f.more le (rw e at f.opened);
}

pub run_idle-Follows :
    (events : List (ℕ × Bool)) (now from to : ℕ) (s s' : State)
    → now ≤ from
    → Between from to events
    → Follows now s s'
    → Follows now s (run_idle events s')
unfolding run_idle set_idle
run_idle-Follows [] now from to s s' le h f = f
run_idle-Follows ((at, idle) ∷ events) now from to s s' le h f =
    run_idle-Follows events now at to s (set_idle at idle s') (omega arith) h.1
      (transition-Follows now at s s' s'.since idle refl (omega arith) f)

pub Between-le : (events : List (ℕ × Bool)) (from to : ℕ) → Between from to events → from ≤ to
Between-le [] from to h = h
Between-le ((at, idle) ∷ events) from to h = omega (arith, Between-le events at to h.1)
