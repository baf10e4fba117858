-- ===== src/Foreground.antt =====
-- crates/ludex-daemon/src/sources/kwin: which foreground windows become sessions. transition.rs is
-- `next_action`, `on_grace_timeout` and `on_tracked_exit`; source.rs is `apply_outcome`,
-- `handle_activation`, the loop and its end. The compositor, the timer and the process watcher
-- come as the sequence of the loop's inputs; the gate's decision and the settings read come with each.
pub mod Trace
pub mod Grace
mod Tests
use ludex.Base.{
  ℕ, Bool, true, false, not, ◌&&◌, ◌||◌, Option, none, some, List, [], ◌∷◌, ◌++◌, String, Eq, ◌==◌,
  nat_eq, if◌then◌else◌,
}
use ludex.Types.{GameKey, native_key, heroic_key, lutris_key}
use ludex.Text.{trim, is_empty}
use ludex.Gate.{AcceptedProcess, GateDecision, accept, reject, LauncherAttribution}
use ludex.Manager.{GameEvent, started, stopped}

pub record AcceptedForeground : Type 0 where
  pub pid : ℕ
  pub key : GameKey
  pub executable_path : String

pub record ForegroundMeta : Type 0 where
  pub pid : ℕ
  pub resource_class : String
  pub caption : String

pub data FgState : Type 0 where
  not_tracked : FgState
  tracked tracked_backgrounded : AcceptedForeground → FgState

abbrev pub current : FgState → Option AcceptedForeground
current FgState.not_tracked = none
current (FgState.tracked af) = some af
current (FgState.tracked_backgrounded af) = some af

pub data TimerOp : Type 0 where
  no_change start cancel : TimerOp

pub data TransitionEvent : Type 0 where
  start : GameKey → String → String → TransitionEvent
  stop : GameKey → TransitionEvent

pub record Outcome : Type 0 where
  pub events : List TransitionEvent
  pub state : FgState
  pub timer : TimerOp

abbrev pub noop : FgState → Outcome
noop state = record { events = []; state = state; timer = TimerOp.no_change }

-- `native_key` of transition.rs.
abbrev pub key_of_accepted : AcceptedProcess → GameKey
key_of_accepted accepted = elim accepted.attribution [
  | none ↦ native_key accepted.executable_path
  | some a ↦ attributed a
]
  where
    attributed : LauncherAttribution → GameKey
    attributed (LauncherAttribution.heroic app_name) = heroic_key app_name
    attributed (LauncherAttribution.lutris uuid) = lutris_key uuid

abbrev pub display_name_from : ForegroundMeta → GameKey → String
display_name_from meta fallback_key =
    if not (is_empty (trim meta.resource_class))
    then meta.resource_class
    else if not (is_empty (trim meta.caption))
    then meta.caption
    else fallback_key.launcher_id

abbrev pub foreground_of : ForegroundMeta → AcceptedProcess → AcceptedForeground
foreground_of meta accepted = record {
  pid = meta.pid;
  key = key_of_accepted accepted;
  executable_path = accepted.executable_path;
}

abbrev pub start_event : ForegroundMeta → AcceptedProcess → TransitionEvent
start_event meta accepted =
    TransitionEvent.start (key_of_accepted accepted) accepted.executable_path
      (display_name_from meta (key_of_accepted accepted))

-- Another window than the tracked one, by the gate's decision.
abbrev pub switched : FgState → ForegroundMeta → AcceptedProcess → Outcome
switched FgState.not_tracked meta accepted = record {
  events = start_event meta accepted ∷ [];
  state = FgState.tracked (foreground_of meta accepted);
  timer = TimerOp.no_change;
}
switched (FgState.tracked prev) meta accepted = record {
  events = TransitionEvent.stop prev.key ∷ start_event meta accepted ∷ [];
  state = FgState.tracked (foreground_of meta accepted);
  timer = TimerOp.no_change;
}
switched (FgState.tracked_backgrounded prev) meta accepted = record {
  events = TransitionEvent.stop prev.key ∷ start_event meta accepted ∷ [];
  state = FgState.tracked (foreground_of meta accepted);
  timer = TimerOp.cancel;
}

abbrev pub rejected : FgState → Bool → Outcome
rejected FgState.not_tracked pause_when_backgrounded = noop FgState.not_tracked
rejected (FgState.tracked af) pause_when_backgrounded =
    if pause_when_backgrounded
    then record { events = []; state = FgState.tracked_backgrounded af; timer = TimerOp.start }
    else noop (FgState.tracked af)
rejected (FgState.tracked_backgrounded af) pause_when_backgrounded =
    noop (FgState.tracked_backgrounded af)

abbrev pub by_decision : FgState → ForegroundMeta → GateDecision → Bool → Outcome
by_decision state meta (accept accepted) pause_when_backgrounded = switched state meta accepted
by_decision state meta (reject reason) pause_when_backgrounded =
    rejected state pause_when_backgrounded

-- The tracked window itself was activated.
abbrev pub returned : FgState → Outcome
returned FgState.not_tracked = noop FgState.not_tracked
returned (FgState.tracked af) = noop (FgState.tracked af)
returned (FgState.tracked_backgrounded af) = record {
  events = [];
  state = FgState.tracked af;
  timer = TimerOp.cancel;
}

abbrev pub is_pid : Option AcceptedForeground → ℕ → Bool
is_pid none pid = false
is_pid (some af) pid = af.pid == pid

pub next_action : FgState → ForegroundMeta → GateDecision → Bool → Outcome
next_action state meta decision pause_when_backgrounded =
    if is_pid (current state) meta.pid
    then returned state
    else by_decision state meta decision pause_when_backgrounded

pub on_grace_timeout : FgState → Bool → Outcome
on_grace_timeout (FgState.tracked_backgrounded af) true = record {
  events = TransitionEvent.stop af.key ∷ [];
  state = FgState.not_tracked;
  timer = TimerOp.no_change;
}
on_grace_timeout (FgState.tracked_backgrounded af) false = record {
  events = [];
  state = FgState.tracked af;
  timer = TimerOp.no_change;
}
on_grace_timeout (FgState.tracked af) pause_when_backgrounded = noop (FgState.tracked af)
on_grace_timeout FgState.not_tracked pause_when_backgrounded = noop FgState.not_tracked

abbrev pub exited : Option AcceptedForeground → FgState → ℕ → Outcome
exited none state exited_pid = noop state
exited (some af) state exited_pid =
    if af.pid == exited_pid
    then record {
      events = TransitionEvent.stop af.key ∷ [];
      state = FgState.not_tracked;
      timer = TimerOp.cancel;
    }
    else noop state

pub on_tracked_exit : FgState → ℕ → Outcome
on_tracked_exit state exited_pid = exited (current state) state exited_pid

-- What the loop of source.rs holds: the state and whether the grace timer is armed.
pub record Loop : Type 0 where
  pub state : FgState
  pub armed : Bool

-- What the loop sends: an event to the session manager, a pid to the process watcher.
pub data Sent : Type 0 where
  event : GameEvent → Sent
  watch : ℕ → Sent

abbrev pub armed_after : TimerOp → Bool → Bool
armed_after TimerOp.no_change armed = armed
armed_after TimerOp.start armed = true
armed_after TimerOp.cancel armed = false

abbrev pub watched : Option AcceptedForeground → List Sent
watched none = []
watched (some af) = Sent.watch af.pid ∷ []

abbrev pub relay : TransitionEvent → FgState → ℕ → List Sent
relay (TransitionEvent.start key executable_path display_name) new_state now =
    Sent.event (GameEvent.started key display_name (some executable_path) now)
    ∷ watched (current new_state)
relay (TransitionEvent.stop key) new_state now = Sent.event (GameEvent.stopped key now) ∷ []

abbrev pub relay_all : List TransitionEvent → FgState → ℕ → List Sent
relay_all [] new_state now = []
relay_all (e ∷ es) new_state now = relay e new_state now ++ relay_all es new_state now

pub apply_outcome : Outcome → Bool → ℕ → Loop × List Sent
apply_outcome outcome armed now = (
  record { state = outcome.state; armed = armed_after outcome.timer armed },
  relay_all outcome.events outcome.state now,
)

pub record Activation : Type 0 where
  pub meta : ForegroundMeta
  pub decision : GateDecision

-- What one turn of the loop wakes up for. `pause` is the setting `pause_when_backgrounded` at that time.
pub data Wake : Type 0 where
  exit : (exited_pid now : ℕ) → Wake
  timer : (pause : Bool) (now : ℕ) → Wake
  activated : (activation : Activation) (pause : Bool) (now : ℕ) → Wake

pub handle_activation : ℕ → Activation → Bool → ℕ → Loop → Loop × List Sent
unfolding next_action apply_outcome
handle_activation self_pid activation pause now loop =
    if activation.meta.pid == self_pid
    then (loop, [])
    else apply_outcome (next_action loop.state activation.meta activation.decision pause) loop.armed
        now

-- One turn of `run_loop`. An unarmed timer never fires.
pub turn : ℕ → Wake → Loop → Loop × List Sent
unfolding on_tracked_exit on_grace_timeout apply_outcome handle_activation
turn self_pid (Wake.exit exited_pid now) loop =
    apply_outcome (on_tracked_exit loop.state exited_pid) loop.armed now
turn self_pid (Wake.timer pause now) loop =
    if loop.armed then apply_outcome (on_grace_timeout loop.state pause) false now else (loop, [])
turn self_pid (Wake.activated activation pause now) loop =
    handle_activation self_pid activation pause now loop

-- `run_loop`, until the shutdown or the end of the activations.
pub run_loop : ℕ → List Wake → Loop → Loop × List Sent
unfolding turn
run_loop self_pid [] loop = (loop, [])
run_loop self_pid (w ∷ ws) loop =
    let (next, sent) = turn self_pid w loop in
    let (last, rest) = run_loop self_pid ws next in (last, sent ++ rest)

abbrev pub idle_loop : Loop
idle_loop = record { state = FgState.not_tracked; armed = false }

abbrev pub final_stop : Option AcceptedForeground → ℕ → List Sent
final_stop none now = []
final_stop (some af) now = Sent.event (GameEvent.stopped af.key now) ∷ []

-- `install_and_run`, less the installation of the script: all that it sends.
pub install_and_run : ℕ → List Wake → ℕ → List Sent
unfolding run_loop
install_and_run self_pid wakes now =
    let (last, sent) = run_loop self_pid wakes idle_loop in
    sent ++ final_stop (current last.state) now
