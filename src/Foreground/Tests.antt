-- ===== src/Foreground/Tests.antt =====
-- An evening of windows.
use ludex.Base.{◌≡◌, refl, true, false, none, some, List, [], ◌∷◌}
use ludex.Types.{native_key}
use ludex.Text.{trim}
use ludex.Gate.{accept, reject, RejectionReason, no_libraries}
use ludex.Manager.{GameEvent}
use ludex.Foreground.{
  AcceptedForeground, FgState, Loop, Wake, Sent, Activation, run_loop, install_and_run, current,
}
use ludex.Foreground.Trace.{Plays, install_and_run-Plays}
use ludex.Foreground.Grace.{Timed, run_loop-Timed, run_loop-spared}

abbrev game : AcceptedForeground
game = record { pid = 40; key = native_key "/games/celeste"; executable_path = "/games/celeste" }

abbrev celeste : Activation
celeste = record {
  meta = record { pid = 40; resource_class = "celeste"; caption = "Celeste" };
  decision = accept (record {
    executable_path = "/games/celeste";
    graphics_libraries = no_libraries;
    attribution = none;
  });
}

abbrev browser : Activation
browser = record {
  meta = record { pid = 50; resource_class = "firefox"; caption = "" };
  decision = reject RejectionReason.blocklisted;
}

-- The game, the browser, the game again, and the browser until the timer fires.
abbrev evening : List Wake
evening =
    Wake.activated celeste true 1
    ∷ Wake.activated browser true 2
    ∷ Wake.activated celeste true 3
    ∷ Wake.activated browser true 4
    ∷ Wake.timer true 9
    ∷ []

evening_sent :
    install_and_run 1 evening 10
    ≡ Sent.event
        (GameEvent.started (native_key "/games/celeste") "celeste" (some "/games/celeste") 1)
      ∷ Sent.watch 40
      ∷ Sent.event (GameEvent.stopped (native_key "/games/celeste") 9)
      ∷ []
unfolding install_and_run trim
evening_sent = refl

install_and_run-Plays_example : Plays none (install_and_run 1 evening 10) none
install_and_run-Plays_example = install_and_run-Plays 1 evening 10

abbrev in_game : Loop
in_game = record { state = FgState.tracked game; armed = false }

run_loop-Timed_example : Timed (run_loop 1 evening in_game).0
run_loop-Timed_example = run_loop-Timed 1 evening in_game refl

abbrev alt_tabs : List Wake
alt_tabs =
    Wake.activated browser true 2
    ∷ Wake.exit 50 3
    ∷ Wake.activated celeste true 4
    ∷ Wake.activated browser true 5
    ∷ Wake.timer false 6
    ∷ []

run_loop-spared_example :
    ((run_loop 1 alt_tabs in_game).1 ≡ [])
    × (current (run_loop 1 alt_tabs in_game).0.state ≡ some game)
run_loop-spared_example = run_loop-spared 1 alt_tabs in_game game refl refl
