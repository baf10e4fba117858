-- ===== src/Store/Reachable/Tests.antt =====
-- A database that a first game reaches.
use ludex.Base.{◌≡◌, refl, [], ◌∷◌, none}
use ludex.Types.{Session, RuntimeSnapshot, ExitReason, ok}
use ludex.Store.{Db, begin, close, roll_up, close_and_rollup}
use ludex.Store.Invariant.{IsValid}
use ludex.Store.Applications.{create, inserted, find_by_key}
use ludex.Store.Tests.{celeste}
use ludex.Store.Reachable.{new_db, Reached, Reached-IsValid}

abbrev with_celeste : Db
with_celeste = record new_db { applications = inserted 1 celeste ∷ []; next_application_id = 2 }

celeste_created : create celeste new_db ≡ ok (inserted 1 celeste, with_celeste)
unfolding create find_by_key
celeste_created = refl

abbrev first_session : Session
first_session = record {
  id = 1;
  application_id = 1;
  started_at = 400;
  ended_at = none;
  heartbeat_at = 400;
  full_runtime_seconds = 0;
  interactive_runtime_seconds = 0;
  exit_reason = none;
}

abbrev playing_celeste : Db
playing_celeste = record with_celeste { sessions = first_session ∷ []; next_session_id = 2 }

session_begun : begin 1 400 with_celeste ≡ ok (first_session, playing_celeste)
unfolding begin
session_begun = refl

abbrev reached : Reached playing_celeste
reached = Reached.begun 1 400 (Reached.created celeste Reached.opened celeste_created) session_begun

abbrev last_beat : RuntimeSnapshot
last_beat = record { full_runtime_seconds = 90; interactive_runtime_seconds = 70; at = 490 }

abbrev after_celeste : Db
after_celeste = record playing_celeste {
  sessions = close last_beat ExitReason.terminated first_session ∷ [];
  applications = roll_up last_beat (inserted 1 celeste) ∷ [];
}

session_closed :
    close_and_rollup 1 1 last_beat ExitReason.terminated playing_celeste ≡ ok after_celeste
unfolding close_and_rollup
session_closed = refl

Reached-IsValid_example : IsValid after_celeste
Reached-IsValid_example =
    Reached-IsValid after_celeste
      (Reached.closed 1 1 last_beat ExitReason.terminated reached ((λ e. refl), tt) session_closed)
