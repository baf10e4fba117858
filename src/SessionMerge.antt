-- ===== src/SessionMerge.antt =====
-- crates/ludex-core/src/session_merge.rs: the fold of adjacent sessions of one application into
-- spans for display. `out` is held with its last element first and turned round at the end.
pub mod Runs
pub mod Totals
pub mod Instances
mod Tests
use ludex.Base.{
  ℕ, ◌+◌, Bool, false, ◌&&◌, Option, none, some, List, [], ◌∷◌, ◌++◌, foldl, reverse, leb, Eq, ◌==◌,
  nat_eq, if◌then◌else◌, saturating_add,
}
use ludex.Types.{Session, RecentSession}

-- The closures that `fold` is given.
pub record Row (T : Type 0) : Type 0 where
  pub application_id_of : T → ℕ
  pub id_of : T → ℕ
  pub started_at_of : T → ℕ
  pub ended_at_of : T → Option ℕ
  pub merge_into : T → T → T

abbrev pub Span : Type 0 → Type 0
Span T = T × List ℕ

module _ {T : Type 0} (r : Row T) (gap : ℕ) where
  open r use {application_id_of, id_of, started_at_of, ended_at_of, merge_into}

  -- `started_at_of(acc) - end <= gap`, over signed durations.
  pub ended_within : T → Option ℕ → Bool
  ended_within acc none = false
  ended_within acc (some end) = leb (started_at_of acc) (end + gap)

  pub mergeable : T → T → Bool
  unfolding ended_within
  mergeable acc row =
      application_id_of acc == application_id_of row && ended_within acc (ended_at_of row)

  -- The body of the loop.
  pub fold_row : List (Span T) → T → List (Span T)
  fold_row [] row = (row, id_of row ∷ []) ∷ []
  fold_row ((acc, frags) ∷ out) row =
      if mergeable acc row
      then (merge_into acc row, frags ++ id_of row ∷ []) ∷ out
      else (row, id_of row ∷ []) ∷ (acc, frags) ∷ out

  pub fold : List T → List (Span T)
  unfolding fold_row
  fold rows = reverse (foldl fold_row [] rows)

abbrev pub merge_recent : RecentSession → RecentSession → RecentSession
merge_recent acc older = record acc {
  started_at = older.started_at;
  full_runtime_seconds = saturating_add acc.full_runtime_seconds older.full_runtime_seconds;
  interactive_runtime_seconds =
      saturating_add acc.interactive_runtime_seconds older.interactive_runtime_seconds;
}

abbrev pub merge_session : Session → Session → Session
merge_session acc older = record acc {
  started_at = older.started_at;
  full_runtime_seconds = saturating_add acc.full_runtime_seconds older.full_runtime_seconds;
  interactive_runtime_seconds =
      saturating_add acc.interactive_runtime_seconds older.interactive_runtime_seconds;
}

abbrev pub recent_row : Row RecentSession
recent_row = record {
  application_id_of = λ row. row.application_id;
  id_of = λ row. row.id;
  started_at_of = λ row. row.started_at;
  ended_at_of = λ row. row.ended_at;
  merge_into = merge_recent;
}

abbrev pub session_row : Row Session
session_row = record {
  application_id_of = λ row. row.application_id;
  id_of = λ row. row.id;
  started_at_of = λ row. row.started_at;
  ended_at_of = λ row. row.ended_at;
  merge_into = merge_session;
}

pub merge_adjacent_recent : List RecentSession → ℕ → List (Span RecentSession)
unfolding fold
merge_adjacent_recent rows gap = fold recent_row gap rows

pub merge_adjacent_session : List Session → ℕ → List (Span Session)
unfolding fold
merge_adjacent_session rows gap = fold session_row gap rows
