-- ===== src/Store/Exact.antt =====
-- A heartbeat and a close of a row that is there, is open, and passes the CHECK: they succeed and
-- write that row.
use ludex.Base.{ℕ, ◌≡◌, refl, true, some, arith, nat_eq}
use ludex.Types.{Session, RuntimeSnapshot, ExitReason, ok, ◌>>=◌}
use ludex.Store.{
  Db, find_by_id, is_open, beat, close, heartbeat, close_and_rollup, runtimes_checked, has_id,
  roll_up, update_where,
}
use ludex.Store.Rows.{Replaced}
use ludex.Store.Invariant.{IsValid}
use ludex.Store.Sessions.{missed, refused, written, update_open_lem, written-beat-IsValid}
use ludex.Store.Closing.{written-close-IsValid}
use ludex.Store.Find.{find-affected, written-found}

module _ (id : ℕ) (snapshot : RuntimeSnapshot) (db : Db) (s : Session) (v : IsValid db)
    (at_id : find_by_id id db.sessions ≡ some s) (opened : is_open s ≡ true)
    (checked : runtimes_checked snapshot ≡ true) where
  -- A heartbeat of an open session writes exactly that row.
  pub heartbeat-ok :
      (db' : Db) × (heartbeat id snapshot db ≡ ok db')
      × IsValid db'
      × Replaced s (beat snapshot s) db.sessions db'.sessions
  unfolding heartbeat
  heartbeat-ok =
      elim (update_open_lem id snapshot (beat snapshot) db.next_session_id db.sessions
        v.session_ids) [
          | missed none_met _ ↦ cc (none_met, find-affected id db.sessions s at_id opened)
          | refused _ unchecked _ ↦ cc
          | written t rows' _ _ same opened' rest e ↦
              let found = written-found id db.next_session_id s v.session_ids rest same at_id in
              (
                record db { sessions = rows' },
                rw (e, ◌>>=◌),
                written-beat-IsValid snapshot db t rows' v checked opened' rest,
                rw found at rest,
              )
        ]

  pub close-ok :
      (application_id : ℕ) (reason : ExitReason)
      → s.application_id ≡ application_id
      → (db' : Db) × (close_and_rollup id application_id snapshot reason db ≡ ok db')
        × IsValid db'
        × Replaced s (close snapshot reason s) db.sessions db'.sessions
        × (db'.next_session_id ≡ db.next_session_id)
  unfolding close_and_rollup
  close-ok application_id reason owner =
      elim (update_open_lem id snapshot (close snapshot reason) db.next_session_id db.sessions
        v.session_ids) [
          | missed none_met _ ↦ cc (none_met, find-affected id db.sessions s at_id opened)
          | refused _ unchecked _ ↦ cc
          | written t rows' some_met _ same opened' rest e ↦
              let found = written-found id db.next_session_id s v.session_ids rest same at_id in
              (
                record db {
                  sessions = rows';
                  applications =
                      update_where (has_id application_id) (roll_up snapshot) db.applications;
                },
                rw (e, ◌>>=◌, some_met),
                written-close-IsValid application_id snapshot reason db t rows' v checked
                    (ground (arith, found, owner)) opened' rest,
                rw found at rest,
                refl,
              )
        ]
