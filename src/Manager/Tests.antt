-- ===== src/Manager/Tests.antt =====
-- Runs of the session manager.
use ludex.Base.{ℕ, true, false, ◌≡◌, refl, none, List, [], ◌∷◌, ◌*◌, ◌+◌, min, arith, leb, i64_max}
use ludex.Types.{ExitReason, GameKey, steam_key, ok, key_eq, key_beq}
use ludex.Store.{list_all_orphans, find_by_id, runtimes_checked}
use ludex.Store.Invariant.{IsValid}
use ludex.Base.Table.{lookup, contains, contains_key}
use ludex.Idle.{billable_idle_seconds_since}
use ludex.Store.Applications.{find_by_key}
use ludex.Store.Tests.{played, playing, library, library-IsValid}
use ludex.Manager.{
  SessionManager, GameEvent, Input, Reading, serve, run, handle_started, OpenSession, snapshot_for,
  close_session,
}
use ludex.Manager.Link.{Linked, Backed}
use ludex.Manager.Closing.{Closed, close_session-ok}
use ludex.Manager.Runtimes.{snapshot-checked}
use ludex.Manager.Opening.{is_busy, Started, handle_started-Started}
use ludex.Manager.Run.{serve-Linked}
use ludex.Manager.Shutdown.{NoneOpen, run-NoneOpen}
use ludex.Manager.Recovery.{new-Linked}

abbrev fresh : SessionManager
fresh = record {
  db = record { applications = []; sessions = []; next_application_id = 1; next_session_id = 1 };
  idle_tracker = record { closed_intervals_seconds = []; since = none };
  blocklist = [];
  open_sessions = [];
  effects = [];
}

fresh-Linked : Linked fresh
unfolding list_all_orphans
fresh-Linked =
    new-Linked fresh
      (record {
        session_ids = tt;
        application_ids = tt;
        one_open = tt;
        checked = tt;
        owned = tt;
        agrees = tt;
      })
      refl refl

abbrev at : ℕ → Reading
at n = record { instant = 1000000000 * n; wall = n; grace_seconds = 5 }

abbrev hades : GameKey
hades = steam_key "1145360"

-- A game is played, left open over a heartbeat, started twice and stopped once.
abbrev evening : List (Input × Reading)
evening =
    (Input.event (GameEvent.started hades "Hades" none 10), at 10)
    ∷ (Input.event (GameEvent.started hades "Hades" none 11), at 11)
    ∷ (Input.idle true, at 15)
    ∷ (Input.tick, at 40)
    ∷ (Input.idle false, at 45)
    ∷ (Input.event (GameEvent.stopped hades 50), at 50)
    ∷ (Input.event (GameEvent.started hades "Hades" none 60), at 60)
    ∷ []

serve-Linked_example : Linked (serve evening fresh)
serve-Linked_example = serve-Linked evening fresh fresh-Linked

run-NoneOpen_example :
    IsValid (run evening (at 70) fresh).db × NoneOpen (run evening (at 70) fresh).db
run-NoneOpen_example = run-NoneOpen evening (at 70) fresh fresh-Linked

-- Hades was played and is closed; nothing is tracked.
abbrev rested : SessionManager
rested = record fresh { db = record library { sessions = played ∷ [] } }

rested-IsValid : IsValid rested.db
rested-IsValid = record {
  session_ids = (omega arith, tt);
  application_ids = library-IsValid.application_ids;
  one_open = ((λ e. refl), tt);
  checked = (omega arith, tt);
  owned = (refl, tt);
  agrees = (
    record { run_count = refl; total_full = refl; total_interactive = refl; longest_full = refl },
    tt,
  );
}

unblocked : contains rested.blocklist hades ≡ false
unfolding contains
unblocked = refl

untracked : contains_key hades rested.open_sessions ≡ false
unfolding contains_key lookup
untracked = refl

idle_game : is_busy (find_by_key hades rested.db.applications) rested.db.sessions ≡ false
unfolding find_by_key key_beq
idle_game = refl

handle_started-Started_example :
    let (r, m') = handle_started hades "Hades" none 300 (at 300) rested in
    (r ≡ ok tt) × Started hades "Hades" none 300 (at 300) rested m'
handle_started-Started_example =
    handle_started-Started hades "Hades" none 300 (at 300) rested rested-IsValid unblocked untracked
      idle_game

-- The open session of the library.
abbrev tracked : OpenSession
tracked = record {
  session_id = 2;
  application_id = 1;
  baseline_idle_intervals_count = 0;
  baseline_open_idle_seconds = 0;
  started_instant = 200000000000;
}

abbrev playing_now : SessionManager
playing_now = record fresh { db = library }

tracked-Backed : Backed library.sessions tracked
unfolding find_by_id
tracked-Backed = (playing, refl, refl, refl)

snapshot-checked_example :
    ((snapshot_for playing_now.idle_tracker tracked (at 300) 300).interactive_runtime_seconds
        + min
            (billable_idle_seconds_since 0 0 5 300000000000 playing_now.idle_tracker)
            (snapshot_for playing_now.idle_tracker tracked (at 300) 300).full_runtime_seconds
      ≡ (snapshot_for playing_now.idle_tracker tracked (at 300) 300).full_runtime_seconds)
    × (runtimes_checked (snapshot_for playing_now.idle_tracker tracked (at 300) 300) ≡ true)
    × (leb (snapshot_for playing_now.idle_tracker tracked (at 300) 300).full_runtime_seconds i64_max
        ≡ true)
snapshot-checked_example = snapshot-checked playing_now.idle_tracker tracked (at 300) 300

close_session-ok_example :
    (m' : SessionManager) × (close_session tracked 300 ExitReason.terminated (at 300) playing_now
      ≡ ok m')
    × Closed tracked playing_now m'
close_session-ok_example =
    close_session-ok tracked 300 ExitReason.terminated (at 300) playing_now library-IsValid
      tracked-Backed
