-- ===== src/Foreground/Trace.antt =====
-- crates/ludex-daemon/src/sources/kwin: the events that the source sends, in their order.
use ludex.Base.{
  ℕ, ◌≡◌, refl, Bool, true, false, Option, none, some, List, [], ◌∷◌, ◌++◌, String, Bool-cases, inl,
  inr, ◌==◌, nat_eq,
}
use ludex.Types.{GameKey}
use ludex.Gate.{GateDecision, accept, reject}
use ludex.Manager.{GameEvent}
use ludex.Foreground.{
  AcceptedForeground, FgState, current, Outcome, ForegroundMeta, Loop, Sent, Wake, next_action,
  on_grace_timeout, on_tracked_exit, apply_outcome, handle_activation, turn, run_loop, idle_loop,
  final_stop, install_and_run, returned, by_decision, relay_all, is_pid, exited,
}

-- The keys of what is tracked before and after some messages: a game is started only when none is,
-- and stopped only when it is the one.
pub data Plays : Option GameKey → List Sent → Option GameKey → Type 0 where
  rest : {k : Option GameKey} → Plays k [] k
  begins :
      {key : GameKey} {name : String} {path : Option String} {at : ℕ} {sent : List Sent}
      {last : Option GameKey}
      → Plays (some key) sent last
      → Plays none (Sent.event (GameEvent.started key name path at) ∷ sent) last
  ends :
      {key : GameKey} {at : ℕ} {sent : List Sent} {last : Option GameKey}
      → Plays none sent last
      → Plays (some key) (Sent.event (GameEvent.stopped key at) ∷ sent) last
  watches :
      {k last : Option GameKey} {pid : ℕ} {sent : List Sent}
      → Plays k sent last
      → Plays k (Sent.watch pid ∷ sent) last

abbrev pub key_of : Option AcceptedForeground → Option GameKey
key_of none = none
key_of (some af) = some af.key

Plays-append :
    {j k l : Option GameKey} {sent more : List Sent}
    → Plays j sent k
    → Plays k more l
    → Plays j (sent ++ more) l
Plays-append rest q = q
Plays-append (begins p) q = begins (Plays-append p q)
Plays-append (ends p) q = ends (Plays-append p q)
Plays-append (watches p) q = watches (Plays-append p q)

-- An outcome's events lead from the state before to the state after.
abbrev Leads : FgState → Outcome → Type 0
Leads state o =
    (now : ℕ)
    → Plays (key_of (current state)) (relay_all o.events o.state now) (key_of (current o.state))

returned-Leads : (state : FgState) → Leads state (returned state)
returned-Leads FgState.not_tracked now = rest
returned-Leads (FgState.tracked af) now = rest
returned-Leads (FgState.tracked_backgrounded af) now = rest

by_decision-Leads :
    (state : FgState) (meta : ForegroundMeta) (d : GateDecision) (pause : Bool)
    → Leads state (by_decision state meta d pause)
by_decision-Leads FgState.not_tracked meta (accept a) pause now = begins (watches rest)
by_decision-Leads (FgState.tracked af) meta (accept a) pause now = ends (begins (watches rest))
by_decision-Leads (FgState.tracked_backgrounded af) meta (accept a) pause now =
    ends (begins (watches rest))
by_decision-Leads FgState.not_tracked meta (reject r) pause now = rest
by_decision-Leads (FgState.tracked af) meta (reject r) true now = rest
by_decision-Leads (FgState.tracked af) meta (reject r) false now = rest
by_decision-Leads (FgState.tracked_backgrounded af) meta (reject r) pause now = rest

next_action-Leads :
    (state : FgState) (meta : ForegroundMeta) (d : GateDecision) (pause : Bool)
    → Leads state (next_action state meta d pause)
unfolding next_action
next_action-Leads state meta d pause = elim (Bool-cases (is_pid (current state) meta.pid)) [
  | inl e ↦ rw e (returned-Leads state)
  | inr e ↦ rw e (by_decision-Leads state meta d pause)
]

on_grace_timeout-Leads :
    (state : FgState) (pause : Bool) → Leads state (on_grace_timeout state pause)
unfolding on_grace_timeout
on_grace_timeout-Leads FgState.not_tracked pause now = rest
on_grace_timeout-Leads (FgState.tracked af) pause now = rest
on_grace_timeout-Leads (FgState.tracked_backgrounded af) true now = ends rest
on_grace_timeout-Leads (FgState.tracked_backgrounded af) false now = rest

exited-Leads :
    (state : FgState) (af : AcceptedForeground) (pid : ℕ)
    → current state ≡ some af
    → Leads state (exited (some af) state pid)
exited-Leads state af pid at = elim (Bool-cases (af.pid == pid)) [
  | inl e ↦ rw (e, at) (λ now. ends rest)
  | inr e ↦ rw e (λ now. rest)
]

on_tracked_exit-Leads : (state : FgState) (pid : ℕ) → Leads state (on_tracked_exit state pid)
unfolding on_tracked_exit
on_tracked_exit-Leads FgState.not_tracked pid = λ now. rest
on_tracked_exit-Leads (FgState.tracked af) pid = exited-Leads (FgState.tracked af) af pid refl
on_tracked_exit-Leads (FgState.tracked_backgrounded af) pid =
    exited-Leads (FgState.tracked_backgrounded af) af pid refl

abbrev tracked_key : Loop → Option GameKey
tracked_key loop = key_of (current loop.state)

turn-Plays :
    (self_pid : ℕ) (w : Wake) (loop : Loop)
    → Plays (tracked_key loop) (turn self_pid w loop).1 (tracked_key (turn self_pid w loop).0)
unfolding turn apply_outcome handle_activation
turn-Plays self_pid (Wake.exit pid now) loop = on_tracked_exit-Leads loop.state pid now
turn-Plays self_pid (Wake.timer pause now) loop = elim (Bool-cases loop.armed) [
  | inl e ↦ rw e (on_grace_timeout-Leads loop.state pause now)
  | inr e ↦ rw e rest
]
turn-Plays self_pid (Wake.activated a pause now) loop = elim (Bool-cases (a.meta.pid == self_pid)) [
  | inl e ↦ rw e rest
  | inr e ↦ rw e (next_action-Leads loop.state a.meta a.decision pause now)
]

run_loop-Plays :
    (self_pid : ℕ) (ws : List Wake) (loop : Loop)
    → Plays
        (tracked_key loop)
        (run_loop self_pid ws loop).1
        (tracked_key (run_loop self_pid ws loop).0)
unfolding run_loop
run_loop-Plays self_pid [] loop = rest
run_loop-Plays self_pid (w ∷ ws) loop =
    Plays-append (turn-Plays self_pid w loop) (run_loop-Plays self_pid ws (turn self_pid w loop).0)

final_stop-Plays :
    (af : Option AcceptedForeground) (now : ℕ) → Plays (key_of af) (final_stop af now) none
final_stop-Plays none now = rest
final_stop-Plays (some af) now = ends rest

-- Whatever wakes the loop, what the source sends from its start to its end is a sequence of pairs:
-- a game is started only when no other is, the next stop is of that game, and no game is left started.
pub install_and_run-Plays :
    (self_pid : ℕ) (ws : List Wake) (now : ℕ) → Plays none (install_and_run self_pid ws now) none
unfolding install_and_run
install_and_run-Plays self_pid ws now =
    Plays-append (run_loop-Plays self_pid ws idle_loop)
      (final_stop-Plays (current (run_loop self_pid ws idle_loop).0.state) now)
