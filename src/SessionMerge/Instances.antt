-- ===== src/SessionMerge/Instances.antt =====
-- merge_adjacent_recent and merge_adjacent_session: the laws of `fold`, for the two row types.
use mathlib.Core.List.{flat_map}
use ludex.Base.{ℕ, ◌≤◌, ◌≡◌, refl, List, map, sum_of, i64_max}
use ludex.Types.{Session, RecentSession}
use ludex.SessionMerge.{
  Span, recent_row, session_row, merge_adjacent_recent, merge_adjacent_session,
}
use ludex.SessionMerge.Runs.{MergeLaws, runs, summarise, fold-runs}
use ludex.SessionMerge.Totals.{fold-ids, fold-weight, fold_twice}

pub recent_laws : MergeLaws recent_row
recent_laws = record {
  keeps_application = λ a b. refl;
  takes_start = λ a b. refl;
  keeps_end = λ a b. refl;
}

pub session_laws : MergeLaws session_row
session_laws = record {
  keeps_application = λ a b. refl;
  takes_start = λ a b. refl;
  keeps_end = λ a b. refl;
}

-- Both folds return one span for each run of rows in which every row ended at most `gap` before
-- the next newer row of the same application began, and each span is the run's newest row with
-- the older ones merged in, in order, beside the ids of all rows of the run.
pub merge_adjacent-runs :
    (gap : ℕ) (recent : List RecentSession) (rows : List Session)
    → (merge_adjacent_recent recent gap
        ≡ map (summarise recent_row gap) (runs recent_row gap recent))
      × (merge_adjacent_session rows gap
          ≡ map (summarise session_row gap) (runs session_row gap rows))
unfolding merge_adjacent_recent merge_adjacent_session
merge_adjacent-runs gap recent rows =
    (fold-runs recent_row gap recent_laws recent, fold-runs session_row gap session_laws rows)

-- The fragment ids of the spans, read from first to last, are the ids of the rows in their order.
pub merge_adjacent-ids :
    (gap : ℕ) (recent : List RecentSession) (rows : List Session)
    → (flat_map (λ s. s.1) (merge_adjacent_recent recent gap) ≡ map (λ row. row.id) recent)
      × (flat_map (λ s. s.1) (merge_adjacent_session rows gap) ≡ map (λ row. row.id) rows)
unfolding merge_adjacent_recent merge_adjacent_session
merge_adjacent-ids gap recent rows =
    (fold-ids recent_row gap recent_laws recent, fold-ids session_row gap session_laws rows)

-- While the rows' full runtimes add up to at most `i64::MAX`, so that no merge saturates, the
-- spans' full runtimes add up to the same number; likewise the interactive runtimes.
pub merge_adjacent-totals :
    (gap : ℕ) (recent : List RecentSession)
    → sum_of (λ (row : RecentSession). row.full_runtime_seconds) recent ≤ i64_max
    → sum_of (λ (row : RecentSession). row.interactive_runtime_seconds) recent ≤ i64_max
    → (sum_of
          (λ (s : Span RecentSession). s.0.full_runtime_seconds)
          (merge_adjacent_recent recent gap)
        ≡ sum_of (λ (row : RecentSession). row.full_runtime_seconds) recent)
      × (sum_of
            (λ (s : Span RecentSession). s.0.interactive_runtime_seconds)
            (merge_adjacent_recent recent gap)
          ≡ sum_of (λ (row : RecentSession). row.interactive_runtime_seconds) recent)
unfolding merge_adjacent_recent
merge_adjacent-totals gap recent full interactive = (
  fold-weight recent_row gap (λ row. row.full_runtime_seconds) (λ a b. refl) recent_laws recent
      full,
  fold-weight recent_row gap (λ row. row.interactive_runtime_seconds) (λ a b. refl) recent_laws
      recent interactive,
)

-- Folding the spans once more, with the same gap, changes no span: what was left apart stays apart.
pub merge_adjacent_twice :
    (gap : ℕ) (recent : List RecentSession)
    → map (λ s. s.0) (merge_adjacent_recent (map (λ s. s.0) (merge_adjacent_recent recent gap)) gap)
      ≡ map (λ s. s.0) (merge_adjacent_recent recent gap)
unfolding merge_adjacent_recent
merge_adjacent_twice gap recent = fold_twice recent_row gap recent_laws recent
