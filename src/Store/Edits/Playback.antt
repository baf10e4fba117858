-- ===== src/Store/Edits/Playback.antt =====
-- crates/ludex-core/src/repo: the transaction `close_and_rollup` beside the two calls that it stands for.
use ludex.Base.{
  ℕ, ◌≡◌, refl, sym, ap, false, some, List, [], ◌∷◌, ◌==◌, nat_eq, Bool-cases, inl, inr,
}
use ludex.Types.{Application, RuntimeSnapshot, ExitReason, ok, ◌>>=◌, Result-cases}
use ludex.Store.{
  Db, update_where, rows_affected, is_open_id, has_id, roll_up, update_open, close,
  close_and_rollup, end_session,
}
use ludex.Store.Edits.{PlaybackDelta, add_playback, raise_longest, apply_playback}

-- The delta of a closed session.
abbrev pub delta_of : RuntimeSnapshot → PlaybackDelta
delta_of snapshot = record {
  full_runtime_seconds = snapshot.full_runtime_seconds;
  interactive_runtime_seconds = snapshot.interactive_runtime_seconds;
  longest_full_candidate = some snapshot.full_runtime_seconds;
  last_played_at = snapshot.at;
}

playback-roll_up :
    (id : ℕ) (snapshot : RuntimeSnapshot) (apps : List Application)
    → raise_longest id
        (some snapshot.full_runtime_seconds)
        (update_where (has_id id) (add_playback (delta_of snapshot)) apps)
      ≡ update_where (has_id id) (roll_up snapshot) apps
playback-roll_up id snapshot [] = refl
playback-roll_up id snapshot (app ∷ apps) = elim (Bool-cases (has_id id app)) [
  | inl e ↦ rw (e, e) (ap (λ rest. roll_up snapshot app ∷ rest) (playback-roll_up id snapshot apps))
  | inr e ↦ rw (e, e) (ap (λ rest. app ∷ rest) (playback-roll_up id snapshot apps))
]

-- Where an open row has the id, `close_and_rollup` does what `end` and, where that succeeds,
-- `apply_playback` with the session's figures do one after the other.
pub close_and_rollup-end_session :
    (session_id application_id : ℕ) (snapshot : RuntimeSnapshot) (reason : ExitReason) (db : Db)
    → (rows_affected (is_open_id session_id) db.sessions == 0) ≡ false
    → close_and_rollup session_id application_id snapshot reason db ≡ (
        end_session session_id snapshot reason db >>= λ db'.
        ok (apply_playback application_id (delta_of snapshot) db'))
unfolding close_and_rollup end_session apply_playback
close_and_rollup-end_session session_id application_id snapshot reason db met =
    elim (Result-cases (update_open session_id snapshot (close snapshot reason) db.sessions)) [
      | inr (error, e) ↦ rw (e, ◌>>=◌) refl
      | inl (rows, e) ↦
          rw (e, ◌>>=◌, met)
            (ap (λ apps. ok (record db { sessions = rows; applications = apps }))
              (sym (playback-roll_up application_id snapshot db.applications)))
    ]
