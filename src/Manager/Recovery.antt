-- ===== src/Manager/Recovery.antt =====
-- `recover_orphans`, and the manager that the daemon starts with.
use ludex.Base.{
  ◌≡◌, inl, inr, true, some, List, [], ◌∷◌, arith, All, any, Bool-cases, ◌==◌, nat_eq, where_rows,
}
use ludex.Base.Table.{lookup}
use ludex.Types.{Session, RuntimeSnapshot, key_eq}
use ludex.Store.{Db, find_by_id, is_open, list_all_orphans}
use ludex.Store.Rows.{Ids}
use ludex.Store.Invariant.{IsValid, IsChecked}
use ludex.Manager.{SessionManager}
use ludex.Manager.Shutdown.{NoneOpen}
use ludex.Manager.Link.{Linked, Held}
use ludex.Manager.Closing.{none_open}

-- An orphan that is still to be closed.
abbrev Orphan : Db → Session → Type 0
Orphan db s = (find_by_id s.id db.sessions ≡ some s) × (is_open s ≡ true) × IsChecked s

record Recovering (orphans : List Session) (db : Db) : Type 0 where
  valid : IsValid db
  ids : Ids db.next_session_id orphans
  known : All (Orphan db) orphans
  covered : All (λ s. is_open s ≡ true → any (λ o. o.id == s.id) orphans ≡ true) db.sessions

-- The snapshot that closes an orphan: its last heartbeat.
abbrev last_beat : Session → RuntimeSnapshot
last_beat s = record {
  full_runtime_seconds = s.full_runtime_seconds;
  interactive_runtime_seconds = s.interactive_runtime_seconds;
  at = s.heartbeat_at;
}

none-Held : (rows : List Session) → where_rows is_open rows ≡ [] → All (Held []) rows
none-Held [] e = tt
none-Held (s ∷ rows) e = elim (Bool-cases (is_open s)) [
  | inl opened ↦ absurd (ground (arith, e, opened))
  | inr shut ↦ ((λ opened. cc), none-Held rows (ground (arith, e, shut)))
]

-- The manager that `SessionManager::new` makes is linked, once recovery has run.
pub new-Linked :
    (m : SessionManager) → IsValid m.db → NoneOpen m.db → m.open_sessions ≡ [] → Linked m
unfolding list_all_orphans lookup
new-Linked m v none_open table = record {
  valid = v;
  unique = rw table tt;
  backed = λ k o e. absurd (ground (arith, table, e));
  apart = λ j k p o e. absurd (ground (arith, table, e));
  held = rw table (none-Held m.db.sessions none_open);
}
