-- ===== src/Store/Edits/Tests.antt =====
-- Edits of a small library of games.
use ludex.Base.{◌≡◌, refl, inl, none, some, [], ◌∷◌, nat_eq, arith}
use ludex.Types.{
  Application, IdentityUpdate, DetectedVia, RuntimeSnapshot, ExitReason, LauncherType, ok, ◌>>=◌,
}
use ludex.Store.{Db, close_and_rollup, end_session}
use ludex.Store.Invariant.{IsValid}
use ludex.Store.Tests.{hades, library, library-IsValid}
use ludex.Store.Edits.{merge_into, find_application, absorb, fill, apply_playback}
use ludex.Store.Edits.Merging.{merge_into-never_played}
use ludex.Store.Edits.Merged.{MergeOutcome, merge_into-Merged}
use ludex.Store.Edits.Playback.{delta_of, close_and_rollup-end_session}

-- The same game, seen a second time under its path and never played.
abbrev twin : Application
twin = record hades {
  id = 2;
  launcher_type = LauncherType.native;
  launcher_id = "/games/hades";
  publisher = some "Supergiant";
  last_played_at = none;
  stat_run_count = 0;
  stat_total_full = 0;
  stat_total_interactive = 0;
  stat_longest_full = 0;
}

abbrev doubled : Db
doubled = record library { applications = twin ∷ hades ∷ []; next_application_id = 3 }

doubled-IsValid : IsValid doubled
doubled-IsValid = record {
  session_ids = library-IsValid.session_ids;
  application_ids = (omega arith, (omega arith, tt));
  one_open = library-IsValid.one_open;
  checked = library-IsValid.checked;
  owned = (refl, (refl, tt));
  agrees = (
    record { run_count = refl; total_full = refl; total_interactive = refl; longest_full = refl },
    library-IsValid.agrees,
  );
}

abbrev update : IdentityUpdate
update = record {
  product_name = some "Hades II";
  publisher = none;
  version = none;
  executable_path = none;
  launcher_exe_path = none;
  wineprefix_path = none;
  installed_flatpak_ref = none;
  graphics_platform = none;
  process_architecture = none;
  group_id = none;
  detected_via = some DetectedVia.steam;
  icons = record { icon_16 = none; icon_32 = none; icon_48 = none; icon_256 = none };
}

merge_into-Merged_example : MergeOutcome 2 1 doubled (merge_into 2 1 doubled)
merge_into-Merged_example = merge_into-Merged 2 1 doubled doubled-IsValid

abbrev folded : Db
folded = record doubled { applications = fill twin (absorb twin hades) ∷ [] }

twin_folded : merge_into 2 1 doubled ≡ ok folded
unfolding merge_into
twin_folded = refl

twin_found : find_application 2 doubled.applications ≡ some twin
unfolding find_application
twin_found = refl

hades_found : find_application 1 doubled.applications ≡ some hades
unfolding find_application
hades_found = refl

merge_into-never_played_example :
    (row : Application) × (find_application 1 folded.applications ≡ some row)
    × (row.last_played_at ≡ none)
merge_into-never_played_example =
    merge_into-never_played 2 1 twin hades doubled folded twin_found hades_found twin_folded
      (inl refl)

abbrev snapshot : RuntimeSnapshot
snapshot = record { full_runtime_seconds = 90; interactive_runtime_seconds = 70; at = 290 }

close_and_rollup-end_session_example :
    close_and_rollup 2 1 snapshot ExitReason.terminated library ≡ (
      end_session 2 snapshot ExitReason.terminated library >>= λ db'.
      ok (apply_playback 1 (delta_of snapshot) db'))
close_and_rollup-end_session_example =
    close_and_rollup-end_session 2 1 snapshot ExitReason.terminated library refl
