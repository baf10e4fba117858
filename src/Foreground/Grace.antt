-- ===== src/Foreground/Grace.antt =====
-- crates/ludex-daemon/src/sources/kwin: the grace window between the loss of the foreground and the stop.
use ludex.Base.{
  ℕ, ◌≡◌, refl, sym, ◌∙◌, Bool, true, false, not, ◌||◌, some, List, [], ◌∷◌, arith, Bool-cases, inl,
  inr, ◌==◌, nat_eq, all,
}
use ludex.Gate.{GateDecision, accept, reject}
use ludex.Foreground.{
  AcceptedForeground, FgState, current, Outcome, ForegroundMeta, Loop, Wake, next_action,
  on_grace_timeout, on_tracked_exit, apply_outcome, handle_activation, turn, run_loop, armed_after,
}

abbrev pub is_backgrounded : FgState → Bool
is_backgrounded FgState.not_tracked = false
is_backgrounded (FgState.tracked af) = false
is_backgrounded (FgState.tracked_backgrounded af) = true

-- The timer is armed exactly while a tracked window is in the background.
abbrev pub Timed : Loop → Type 0
Timed loop = loop.armed ≡ is_backgrounded loop.state

-- An outcome of a state leaves the timer right.
abbrev Retimes : FgState → Outcome → Type 0
Retimes state o = armed_after o.timer (is_backgrounded state) ≡ is_backgrounded o.state

next_action-Retimes :
    (state : FgState) (meta : ForegroundMeta) (d : GateDecision) (pause : Bool)
    → Retimes state (next_action state meta d pause)
unfolding next_action
next_action-Retimes state meta d pause = ground arith

on_tracked_exit-Retimes : (state : FgState) (pid : ℕ) → Retimes state (on_tracked_exit state pid)
unfolding on_tracked_exit
on_tracked_exit-Retimes state pid = ground arith

on_grace_timeout-unarmed :
    (state : FgState) (pause : Bool)
    → armed_after (on_grace_timeout state pause).timer false
      ≡ is_backgrounded (on_grace_timeout state pause).state
unfolding on_grace_timeout
on_grace_timeout-unarmed state pause = ground arith

turn-Timed : (self_pid : ℕ) (w : Wake) (loop : Loop) → Timed loop → Timed (turn self_pid w loop).0
unfolding turn apply_outcome handle_activation
turn-Timed self_pid (Wake.exit pid now) loop h = rw h (on_tracked_exit-Retimes loop.state pid)
turn-Timed self_pid (Wake.timer pause now) loop h = elim (Bool-cases loop.armed) [
  | inl e ↦ rw e (on_grace_timeout-unarmed loop.state pause)
  | inr e ↦ rw e (sym e ∙ h)
]
turn-Timed self_pid (Wake.activated a pause now) loop h =
    elim (Bool-cases (a.meta.pid == self_pid)) [
      | inl e ↦ rw e h
      | inr e ↦ rw (e, h) (next_action-Retimes loop.state a.meta a.decision pause)
    ]

-- Through any wakes of the loop the grace timer stays armed exactly while the tracked window is in
-- the background.
pub run_loop-Timed :
    (self_pid : ℕ) (ws : List Wake) (loop : Loop) → Timed loop → Timed (run_loop self_pid ws loop).0
unfolding run_loop
run_loop-Timed self_pid [] loop h = h
run_loop-Timed self_pid (w ∷ ws) loop h =
    run_loop-Timed self_pid ws (turn self_pid w loop).0 (turn-Timed self_pid w loop h)

abbrev pub is_reject : GateDecision → Bool
is_reject (accept a) = false
is_reject (reject r) = true

-- A wake that is no end of the session of `pid`: another process exits, a timer fires with the
-- pause switched off, or the window activated is its own or no game's.
abbrev pub spares : ℕ → Wake → Bool
spares pid (Wake.exit exited_pid now) = not (pid == exited_pid)
spares pid (Wake.timer pause now) = not pause
spares pid (Wake.activated a pause now) = pid == a.meta.pid || is_reject a.decision

abbrev Keeps : AcceptedForeground → FgState → Outcome → Type 0
Keeps af state o = (o.events ≡ []) × (current o.state ≡ some af)

next_action-Keeps :
    (af : AcceptedForeground) (state : FgState) (meta : ForegroundMeta) (d : GateDecision)
    (pause : Bool)
    → current state ≡ some af
    → (af.pid == meta.pid || is_reject d) ≡ true
    → Keeps af state (next_action state meta d pause)
unfolding next_action
next_action-Keeps af state meta d pause at spared = ground arith

on_tracked_exit-Keeps :
    (af : AcceptedForeground) (state : FgState) (pid : ℕ)
    → current state ≡ some af
    → not (af.pid == pid) ≡ true
    → Keeps af state (on_tracked_exit state pid)
unfolding on_tracked_exit
on_tracked_exit-Keeps af state pid at spared = ground arith

on_grace_timeout-Keeps :
    (af : AcceptedForeground) (state : FgState)
    → current state ≡ some af
    → Keeps af state (on_grace_timeout state false)
unfolding on_grace_timeout
on_grace_timeout-Keeps af state at = ground arith

Keeps-sent :
    (af : AcceptedForeground) (state : FgState) (o : Outcome) (armed : Bool) (now : ℕ)
    → Keeps af state o
    → ((apply_outcome o armed now).1 ≡ []) × (current (apply_outcome o armed now).0.state ≡ some af)
unfolding apply_outcome
Keeps-sent af state o armed now k = (rw k.0 refl, k.1)

turn-spared :
    (self_pid : ℕ) (w : Wake) (loop : Loop) (af : AcceptedForeground)
    → current loop.state ≡ some af
    → spares af.pid w ≡ true
    → ((turn self_pid w loop).1 ≡ []) × (current (turn self_pid w loop).0.state ≡ some af)
unfolding turn handle_activation
turn-spared self_pid (Wake.exit pid now) loop af at h =
    Keeps-sent af loop.state (on_tracked_exit loop.state pid) loop.armed now
      (on_tracked_exit-Keeps af loop.state pid at h)
turn-spared self_pid (Wake.timer false now) loop af at h = elim (Bool-cases loop.armed) [
  | inl e ↦ rw e (
      Keeps-sent af loop.state (on_grace_timeout loop.state false) false now
        (on_grace_timeout-Keeps af loop.state at))
  | inr e ↦ rw e (refl, at)
]
turn-spared self_pid (Wake.timer true now) loop af at h = cc
turn-spared self_pid (Wake.activated a pause now) loop af at h =
    elim (Bool-cases (a.meta.pid == self_pid)) [
      | inl e ↦ rw e (refl, at)
      | inr e ↦ rw e (
          Keeps-sent af loop.state (next_action loop.state a.meta a.decision pause) loop.armed now
            (next_action-Keeps af loop.state a.meta a.decision pause at h))
    ]

-- However often the user leaves a tracked game for windows that are no games and comes back, nothing
-- is sent and the game stays tracked, as long as its process lives and no grace timer fires with
-- the pause switched on: one visit is one session.
pub run_loop-spared :
    (self_pid : ℕ) (ws : List Wake) (loop : Loop) (af : AcceptedForeground)
    → current loop.state ≡ some af
    → all (spares af.pid) ws ≡ true
    → ((run_loop self_pid ws loop).1 ≡ []) × (current (run_loop self_pid ws loop).0.state ≡ some af)
unfolding run_loop
run_loop-spared self_pid [] loop af at h = (refl, at)
run_loop-spared self_pid (w ∷ ws) loop af at h =
    let (spared, others) = both h in
    let (silent, at') = turn-spared self_pid w loop af at spared in
    let (still, last) = run_loop-spared self_pid ws (turn self_pid w loop).0 af at' others in
    (rw (silent, still) refl, last)
  where
    both :
        all (spares af.pid) (w ∷ ws) ≡ true
        → (spares af.pid w ≡ true) × (all (spares af.pid) ws ≡ true)
    both h = ground arith
