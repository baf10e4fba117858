-- ===== src/SessionMerge/Tests.antt =====
-- Runs of the fold on concrete histories.
use ludex.Base.{ℕ, ◌≡◌, refl, none, some, List, [], ◌∷◌, map, sum_of, arith}
use ludex.Types.{RecentSession, Session, LauncherType}
use ludex.SessionMerge.{
  Span, recent_row, session_row, merge_adjacent_recent, merge_adjacent_session, mergeable,
}
use ludex.SessionMerge.Runs.{runs, summarise}
use mathlib.Core.List.{flat_map}
use ludex.SessionMerge.Instances.{
  merge_adjacent-runs, merge_adjacent-ids, merge_adjacent-totals, merge_adjacent_twice,
}

abbrev recent : ℕ → ℕ → ℕ → ℕ → RecentSession
recent id app from to = record {
  id = id;
  application_id = app;
  product_name = "Hades";
  launcher_type = LauncherType.steam;
  launcher_id = "1145360";
  started_at = from;
  ended_at = some to;
  full_runtime_seconds = 60;
  interactive_runtime_seconds = 40;
  exit_reason = none;
}

abbrev row : ℕ → ℕ → ℕ → Session
row id from to = record {
  id = id;
  application_id = 7;
  started_at = from;
  ended_at = some to;
  heartbeat_at = to;
  full_runtime_seconds = 60;
  interactive_runtime_seconds = 40;
  exit_reason = none;
}

-- Newest first: two fragments ten apart, another game, and the first game before it.
abbrev evening : List RecentSession
evening = recent 4 7 400 500 ∷ recent 3 7 300 390 ∷ recent 2 8 200 290 ∷ recent 1 7 100 190 ∷ []

abbrev rows : List Session
rows = row 4 400 500 ∷ row 3 300 390 ∷ row 1 100 190 ∷ []

evening_spans :
    map (λ s. s.1) (merge_adjacent_recent evening 10) ≡ (4 ∷ 3 ∷ []) ∷ (2 ∷ []) ∷ (1 ∷ []) ∷ []
unfolding merge_adjacent_recent mergeable
evening_spans = refl

evening_apart :
    map (λ s. s.1) (merge_adjacent_recent evening 9)
    ≡ (4 ∷ []) ∷ (3 ∷ []) ∷ (2 ∷ []) ∷ (1 ∷ []) ∷ []
unfolding merge_adjacent_recent mergeable
evening_apart = refl

merge_adjacent-runs_example :
    (merge_adjacent_recent evening 10 ≡ map (summarise recent_row 10) (runs recent_row 10 evening))
    × (merge_adjacent_session rows 10 ≡ map (summarise session_row 10) (runs session_row 10 rows))
merge_adjacent-runs_example = merge_adjacent-runs 10 evening rows

merge_adjacent-ids_example :
    (flat_map (λ s. s.1) (merge_adjacent_recent evening 10) ≡ map (λ row. row.id) evening)
    × (flat_map (λ s. s.1) (merge_adjacent_session rows 10) ≡ map (λ row. row.id) rows)
merge_adjacent-ids_example = merge_adjacent-ids 10 evening rows

merge_adjacent-totals_example :
    (sum_of
        (λ (s : Span RecentSession). s.0.full_runtime_seconds)
        (merge_adjacent_recent evening 10)
      ≡ sum_of (λ (row : RecentSession). row.full_runtime_seconds) evening)
    × (sum_of
          (λ (s : Span RecentSession). s.0.interactive_runtime_seconds)
          (merge_adjacent_recent evening 10)
        ≡ sum_of (λ (row : RecentSession). row.interactive_runtime_seconds) evening)
merge_adjacent-totals_example = merge_adjacent-totals 10 evening (omega arith) (omega arith)

merge_adjacent_twice_example :
    map (λ s. s.0) (merge_adjacent_recent (map (λ s. s.0) (merge_adjacent_recent evening 10)) 10)
    ≡ map (λ s. s.0) (merge_adjacent_recent evening 10)
merge_adjacent_twice_example = merge_adjacent_twice 10 evening
