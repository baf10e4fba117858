-- ===== src/Manager/Run.antt =====
-- The whole loop: heartbeats, every input in turn, the closing at the end, the recovery at the start.
use ludex.Base.{
  ℕ, ◌≡◌, refl, sym, ◌∙◌, inl, inr, true, some, List, [], ◌∷◌, arith, All, All-map, Bool-cases,
  ◌==◌, nat_eq, beq-eq_true,
}
use ludex.Base.Table.{Table, lookup, Unique, Unique-lookup}
use ludex.Types.{Session, RuntimeSnapshot, GameKey, key_eq, ok}
use ludex.Store.{Db, is_open, beat}
use ludex.Store.Rows.{Replaced, Replaced-All, Replaced-old, Ids}
use ludex.Store.Invariant.{IsValid}
use ludex.Store.Find.{Replaced-find_ne, Replaced-find_self, written-found}
use ludex.Store.Exact.{heartbeat-ok}
use ludex.Manager.{
  SessionManager, OpenSession, GameEvent, Input, Reading, snapshot_for, heartbeat_all,
  heartbeat_open_sessions, handle_event, values, step, serve,
}
use ludex.Manager.Link.{Linked, Backed, Held}
use ludex.Manager.Runtimes.{snapshot-checked}
use ludex.Manager.Started.{handle_started-Linked}
use ludex.Manager.Closing.{handle_stopped-Linked}

-- The entries as a list, with what the table says of each.
pub entries-All :
    (P : OpenSession → Type 0) (t : Table GameKey OpenSession)
    → Unique t
    → ((k : GameKey) (o : OpenSession) → lookup k t ≡ some o → P o)
    → All P (values t)
entries-All P t u f =
    values-All t (All-map _ (λ entry. P entry.1) t (λ entry. f entry.0 entry.1) (Unique-lookup t u))
  where
    values-All : (es : Table GameKey OpenSession) → All (λ entry. P entry.1) es → All P (values es)
    values-All [] h = tt
    values-All (e ∷ es) h = (h.0, values-All es h.1)

-- A heartbeat writes the row of an entry and leaves it backed, and the others too.
Backed-beat :
    (snapshot : RuntimeSnapshot) (n : ℕ) (s : Session) (rows rows' : List Session) (p : OpenSession)
    → Ids n rows
    → is_open s ≡ true
    → Replaced s (beat snapshot s) rows rows'
    → Backed rows p
    → Backed rows' p
Backed-beat snapshot n s rows rows' p ids opened replaced (t, at_id, opened', owner) =
    elim (Bool-cases (p.session_id == s.id)) [
      | inl same ↦
          let named = beq-eq_true p.session_id s.id same in
          let found = written-found p.session_id n t ids replaced (sym named) at_id in
          (
            beat snapshot s,
            rw named (Replaced-find_self n replaced refl ids),
            opened,
            ground (arith, found, owner),
          )
      | inr other ↦
          (t, Replaced-find_ne p.session_id replaced refl (ground arith) ∙ at_id, opened', owner)
    ]

beat-Linked :
    (snapshot : RuntimeSnapshot) (m : SessionManager) (db : Db) (s : Session)
    → Linked m
    → IsValid db
    → is_open s ≡ true
    → Replaced s (beat snapshot s) m.db.sessions db.sessions
    → Linked (record m { db = db })
beat-Linked snapshot m db s link valid opened replaced = record {
  valid = valid;
  unique = link.unique;
  backed = λ k o e.
      Backed-beat snapshot m.db.next_session_id s m.db.sessions db.sessions o link.valid.session_ids
        opened replaced (link.backed k o e);
  apart = link.apart;
  held =
      Replaced-All (Held m.open_sessions) replaced
        (Replaced-old (Held m.open_sessions) replaced link.held) link.held;
}

heartbeat_all-Linked :
    (os : List OpenSession) (now : Reading) (m : SessionManager)
    → Linked m
    → All (Backed m.db.sessions) os
    → (Linked (heartbeat_all os now m).1) × ((heartbeat_all os now m).0 ≡ ok tt)
unfolding heartbeat_all
heartbeat_all-Linked [] now m link h = (link, refl)
heartbeat_all-Linked (o ∷ os) now m link ((s, at_id, opened, owner), h) =
    let snapshot = snapshot_for m.idle_tracker o now now.wall in
    let (db, e, valid, replaced) =
      heartbeat-ok o.session_id snapshot m.db s link.valid at_id opened
        (snapshot-checked m.idle_tracker o now now.wall).1 in
    rw (e, heartbeat_all)
      (heartbeat_all-Linked os now (record m { db = db })
        (beat-Linked snapshot m db s link valid opened replaced)
        (All-map (Backed m.db.sessions) (Backed db.sessions) os
          (λ p.
            Backed-beat snapshot m.db.next_session_id s m.db.sessions db.sessions p
              link.valid.session_ids opened replaced)
          h))

heartbeat-Linked :
    (now : Reading) (m : SessionManager)
    → Linked m
    → (Linked (heartbeat_open_sessions now m).1) × ((heartbeat_open_sessions now m).0 ≡ ok tt)
unfolding heartbeat_open_sessions
heartbeat-Linked now m link =
    heartbeat_all-Linked (values m.open_sessions) now m link
      (entries-All (Backed m.db.sessions) m.open_sessions link.unique link.backed)

handle_event-Linked :
    (e : GameEvent) (now : Reading) (m : SessionManager)
    → Linked m
    → Linked (handle_event e now m).1
unfolding handle_event
handle_event-Linked (GameEvent.started key display_name executable_path at) now m link =
    handle_started-Linked key display_name executable_path at now m link
handle_event-Linked (GameEvent.stopped key at) now m link = handle_stopped-Linked key at now m link

step-Linked : (input : Input × Reading) (m : SessionManager) → Linked m → Linked (step input m)
unfolding step
step-Linked (Input.event e, now) m link = handle_event-Linked e now m link
step-Linked (Input.tick, now) m link = (heartbeat-Linked now m link).0
step-Linked (Input.idle b, now) m link = record {
  valid = link.valid;
  unique = link.unique;
  backed = link.backed;
  apart = link.apart;
  held = link.held;
}

-- Where the entries of the table of open sessions are, one to one, the open rows of a valid
-- database, they stay so whatever inputs arrive, in whatever order and at whatever readings of the
-- clocks.
pub serve-Linked :
    (inputs : List (Input × Reading)) (m : SessionManager) → Linked m → Linked (serve inputs m)
unfolding serve
serve-Linked [] m link = link
serve-Linked (input ∷ inputs) m link = serve-Linked inputs (step input m) (step-Linked input m link)
