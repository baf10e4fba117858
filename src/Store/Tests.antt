-- ===== src/Store/Tests.antt =====
-- A small library of games, and what the statements do to it.
use ludex.Base.{◌≡◌, refl, Bool, none, some, [], ◌∷◌, arith}
use ludex.Types.{
  Application, Session, RuntimeSnapshot, ExitReason, LauncherType, GraphicsPlatform,
  ProcessArchitecture, Error, ok, err,
}
use ludex.Store.{Db, begin, close_and_rollup, close, delete_sessions_and_recompute}
use ludex.Store.Invariant.{IsValid}
use ludex.Store.Sessions.{Keeps}
use ludex.Store.Closing.{close_and_rollup-IsValid, close_and_rollup_twice}
use ludex.Store.Delete.{Deleted, delete-Deleted}
use ludex.Store.Applications.{NewApplication}

abbrev pub hades : Application
hades = record {
  id = 1;
  launcher_type = LauncherType.steam;
  launcher_id = "1145360";
  product_name = "Hades";
  publisher = none;
  version = none;
  executable_path = none;
  launcher_exe_path = none;
  wineprefix_path = none;
  installed_flatpak_ref = none;
  graphics_platform = GraphicsPlatform.unknown;
  process_architecture = ProcessArchitecture.unknown;
  group_id = none;
  detected_via = none;
  icon_16 = none;
  icon_32 = none;
  icon_48 = none;
  icon_256 = none;
  first_seen_at = 100;
  last_played_at = some 160;
  stat_run_count = 1;
  stat_total_full = 60;
  stat_total_interactive = 50;
  stat_longest_full = 60;
}

abbrev pub played : Session
played = record {
  id = 1;
  application_id = 1;
  started_at = 100;
  ended_at = some 160;
  heartbeat_at = 160;
  full_runtime_seconds = 60;
  interactive_runtime_seconds = 50;
  exit_reason = some ExitReason.terminated;
}

abbrev pub playing : Session
playing = record {
  id = 2;
  application_id = 1;
  started_at = 200;
  ended_at = none;
  heartbeat_at = 230;
  full_runtime_seconds = 30;
  interactive_runtime_seconds = 20;
  exit_reason = none;
}

-- One game, played once and open now.
abbrev pub library : Db
library = record {
  applications = hades ∷ [];
  sessions = playing ∷ played ∷ [];
  next_application_id = 2;
  next_session_id = 3;
}

pub library-IsValid : IsValid library
library-IsValid = record {
  session_ids = (omega arith, (omega arith, tt));
  application_ids = (omega arith, tt);
  one_open = ((λ e. refl), ((λ e. refl), tt));
  checked = (omega arith, (omega arith, tt));
  owned = (refl, (refl, tt));
  agrees = (
    record { run_count = refl; total_full = refl; total_interactive = refl; longest_full = refl },
    tt,
  );
}

abbrev snapshot : RuntimeSnapshot
snapshot = record { full_runtime_seconds = 90; interactive_runtime_seconds = 70; at = 290 }

abbrev pub celeste : NewApplication
celeste = record {
  launcher_type = LauncherType.native;
  launcher_id = "/games/celeste";
  product_name = "Celeste";
  publisher = none;
  version = none;
  executable_path = some "/games/celeste";
  launcher_exe_path = none;
  wineprefix_path = none;
  installed_flatpak_ref = none;
  graphics_platform = GraphicsPlatform.unknown;
  process_architecture = ProcessArchitecture.unknown;
  group_id = none;
  icons = record { icon_16 = none; icon_32 = none; icon_48 = none; icon_256 = none };
  first_seen_at = 300;
}

-- A second session of the game is refused while the first is open.
second_refused : begin 1 300 library ≡ err (Error.open_session_exists 1)
unfolding begin
second_refused = refl

open_not_deleted :
    delete_sessions_and_recompute (1 ∷ 2 ∷ []) library
    ≡ err (Error.invariant "cannot delete an open session; stop the game first")
unfolding delete_sessions_and_recompute
open_not_deleted = refl

abbrev closed_library : Db
closed_library = record library {
  sessions = close snapshot ExitReason.terminated playing ∷ played ∷ [];
  applications =
      record hades {
        last_played_at = some 290;
        stat_run_count = 2;
        stat_total_full = 150;
        stat_total_interactive = 120;
        stat_longest_full = 90;
      }
      ∷ [];
}

closed : close_and_rollup 2 1 snapshot ExitReason.terminated library ≡ ok closed_library
unfolding close_and_rollup
closed = refl

close_and_rollup-IsValid_example :
    Keeps IsValid (close_and_rollup 2 1 snapshot ExitReason.terminated library)
close_and_rollup-IsValid_example =
    close_and_rollup-IsValid 2 1 snapshot ExitReason.terminated library library-IsValid
      ((λ e. refl), ((λ e. refl), tt))

close_and_rollup_twice_example :
    close_and_rollup 2 1 snapshot ExitReason.recovered closed_library ≡ ok closed_library
close_and_rollup_twice_example =
    close_and_rollup_twice 2 1 1 snapshot snapshot ExitReason.terminated ExitReason.recovered
      library closed_library library-IsValid closed

delete-Deleted_example :
    Keeps
      (λ (r : Bool × Db). Deleted (1 ∷ []) library r.1)
      (delete_sessions_and_recompute (1 ∷ []) library)
delete-Deleted_example = delete-Deleted (1 ∷ []) library library-IsValid
