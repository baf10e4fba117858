-- ===== src/Steam/Trace.antt =====
-- crates/ludex-daemon/src/sources/steam.rs: the events that the source sends, and the set of running games.
use mathlib.Core.List.{append-nil, append_assoc}
use ludex.Base.{
  ℕ, ◌≡◌, refl, sym, ap, ◌∙◌, Bool, true, false, Option, none, some, List, [], ◌∷◌, ◌++◌, String,
  Bool-cases, inl, inr, string_eq,
}
use ludex.Base.Table.{contains}
use ludex.Types.{steam_key}
use ludex.Manager.{GameEvent}
use ludex.Steam.{Source, change, changed, read_lines, parse_state_change, removed, started_game}

-- The running games before and after some events: a game is started only when it is not running,
-- and stopped only when it is.
pub data Tracks : List String → List GameEvent → List String → Type 0 where
  rest : {running : List String} → Tracks running [] running
  begins :
      {running last : List String} {appid name : String} {at : ℕ} {events : List GameEvent}
      → contains running appid ≡ false
      → Tracks (appid ∷ running) events last
      → Tracks running (started_game appid name at ∷ events) last
  ends :
      {running last : List String} {appid : String} {at : ℕ} {events : List GameEvent}
      → contains running appid ≡ true
      → Tracks (removed appid running) events last
      → Tracks running (GameEvent.stopped (steam_key appid) at ∷ events) last

Tracks-append :
    {r s t : List String} {events more : List GameEvent}
    → Tracks r events s
    → Tracks s more t
    → Tracks r (events ++ more) t
Tracks-append rest q = q
Tracks-append (begins e p) q = begins e (Tracks-append p q)
Tracks-append (ends e p) q = ends e (Tracks-append p q)

-- The state after a step sent some events more, which lead from the one set to the other.
pub record Leads (s s' : Source) : Type 0 where
  pub events : List GameEvent
  pub appended : s'.sent ≡ s.sent ++ events
  pub tracks : Tracks s.running events s'.running

pub Leads-refl : (s : Source) → Leads s s
Leads-refl s = record { events = []; appended = sym (append-nil s.sent); tracks = rest }

pub Leads-trans : (s s' s'' : Source) → Leads s s' → Leads s' s'' → Leads s s''
Leads-trans s s' s'' p q = record {
  events = p.events ++ q.events;
  appended =
      q.appended ∙ ap (λ sent. sent ++ q.events) p.appended ∙ append_assoc s.sent p.events q.events;
  tracks = Tracks-append p.tracks q.tracks;
}

pub change-Leads :
    (resolve_name : String → String) (at : ℕ) (appid : String) (is_running : Bool) (s : Source)
    → Leads s (change resolve_name at (appid, is_running) s)
unfolding change
change-Leads resolve_name at appid true s = elim (Bool-cases (contains s.running appid)) [
  | inl e ↦ rw e (Leads-refl s)
  | inr e ↦ rw e (record {
    events = started_game appid (resolve_name appid) at ∷ [];
    appended = refl;
    tracks = begins e rest;
  })
]
change-Leads resolve_name at appid false s = elim (Bool-cases (contains s.running appid)) [
  | inl e ↦ rw e (record {
    events = GameEvent.stopped (steam_key appid) at ∷ [];
    appended = refl;
    tracks = ends e rest;
  })
  | inr e ↦ rw e (Leads-refl s)
]

changed-Leads :
    (resolve_name : String → String) (at : ℕ) (c : Option (String × Bool)) (s : Source)
    → Leads s (changed resolve_name at c s)
changed-Leads resolve_name at none s = Leads-refl s
changed-Leads resolve_name at (some (appid, b)) s = change-Leads resolve_name at appid b s

pub read_lines-Leads :
    (resolve_name : String → String) (at : ℕ) (lines : List String) (s : Source)
    → Leads s (read_lines resolve_name at lines s)
unfolding read_lines
read_lines-Leads resolve_name at [] s = Leads-refl s
read_lines-Leads resolve_name at (line ∷ lines) s =
    let next = changed resolve_name at (parse_state_change line) s in
    Leads-trans s next (read_lines resolve_name at lines next)
      (changed-Leads resolve_name at (parse_state_change line) s)
      (read_lines-Leads resolve_name at lines next)
