-- ===== src/Manager/Closing.antt =====
-- `close_session` and `handle_stopped`: a session that is open in both places is closed in both.
use ludex.Base.{
  ℕ, ◌≡◌, ◌≢◌, refl, sym, ◌∙◌, inl, inr, true, false, none, some, List, [], ◌∷◌, arith, All,
  All-map, All-map₂, Option-cases, ◌==◌, nat_eq, if◌then◌else◌, length, where_rows,
}
use ludex.Base.Table.{Table, lookup, remove, lookup-remove, remove-Unique}
use ludex.Types.{Session, ExitReason, GameKey, key_eq, key_beq_iff, ok}
use ludex.Store.{is_open, is_open_id, close}
use ludex.Store.Rows.{Replaced, Replaced-All, Replaced-closed_id}
use ludex.Store.Invariant.{IsValid}
use ludex.Store.Find.{find_by_id-id, Replaced-find_ne}
use ludex.Store.Exact.{close-ok}
use ludex.Manager.{
  SessionManager, OpenSession, Reading, ended, snapshot_for, close_session, handle_stopped,
}
use ludex.Manager.Link.{Linked, Backed}
use ludex.Manager.Runtimes.{snapshot-checked}

-- A close that went through wrote one row, which was open, and changed no entry.
pub record Closed (o : OpenSession) (m m' : SessionManager) : Type 0 where
  pub valid : IsValid m'.db
  pub row : Session
  pub row' : Session
  pub replaced : Replaced row row' m.db.sessions m'.db.sessions
  pub same_id : row'.id ≡ row.id
  pub named : row.id ≡ o.session_id
  pub shut : is_open row' ≡ false
  pub entries : m'.open_sessions ≡ m.open_sessions

-- Closing a session that an open row backs, in a valid database, never fails: exactly that row is
-- written and is closed afterwards, the table of open sessions is as it was, and the database is valid.
pub close_session-ok :
    (o : OpenSession) (ended_at : ℕ) (reason : ExitReason) (now : Reading) (m : SessionManager)
    → IsValid m.db
    → Backed m.db.sessions o
    → (m' : SessionManager) × (close_session o ended_at reason now m ≡ ok m') × Closed o m m'
unfolding close_session
close_session-ok o ended_at reason now m v (s, at_id, opened, owner) =
    let snapshot = snapshot_for m.idle_tracker o now ended_at in
    let (db', e, valid, replaced, _) =
      close-ok o.session_id snapshot m.db s v at_id opened
        (snapshot-checked m.idle_tracker o now ended_at).1 o.application_id reason owner in
    (
      ended o snapshot m db',
      rw e,
      record {
        valid = valid;
        row = s;
        row' = close snapshot reason s;
        replaced = replaced;
        same_id = refl;
        named =
            (find_by_id-id o.session_id m.db.next_session_id m.db.sessions s v.session_ids at_id).0;
        shut = refl;
        entries = refl;
      },
    )

pub none_open :
    (id : ℕ) (rows : List Session)
    → (length (where_rows (is_open_id id) rows) == 0) ≡ true
    → All (λ s. is_open_id id s ≡ false) rows
none_open id [] e = tt
none_open id (s ∷ rows) e = (ground arith, none_open id rows (ground arith))

-- The other entries' rows are as they were.
pub Backed-Closed :
    (o p : OpenSession) (m m' : SessionManager)
    → Closed o m m'
    → p.session_id ≢ o.session_id
    → Backed m.db.sessions p
    → Backed m'.db.sessions p
Backed-Closed o p m m' c ne (s, at_id, opened, owner) = (
  s,
  Replaced-find_ne p.session_id c.replaced c.same_id (λ e. ne (e ∙ c.named)) ∙ at_id,
  opened,
  owner,
)

-- No open row has the closed session's id, and what holds of the open rows before holds of those
-- after.
pub All-Closed :
    (P Q : Session → Type 0) (o : OpenSession) (m m' : SessionManager)
    → IsValid m.db
    → Closed o m m'
    → ((s : Session) → is_open s ≡ true → s.id ≢ o.session_id → P s → Q s)
    → All (λ s. is_open s ≡ true → P s) m.db.sessions
    → All (λ s. is_open s ≡ true → Q s) m'.db.sessions
All-Closed P Q o m m' v c f h =
    All-map₂ (λ s. is_open_id o.session_id s ≡ false)
      (λ s. is_open s ≡ true → s.id ≢ o.session_id → Q s) (λ s. is_open s ≡ true → Q s)
      m'.db.sessions (λ s shut g opened. g opened (λ e. ground (arith, shut, opened, e)))
      (none_open o.session_id m'.db.sessions (
        Replaced-closed_id o.session_id m.db.next_session_id c.replaced v.session_ids c.named
          c.shut))
      (Replaced-All (λ s. is_open s ≡ true → s.id ≢ o.session_id → Q s) c.replaced
        (λ opened ne. absurd (ne (c.same_id ∙ c.named)))
        (All-map (λ s. is_open s ≡ true → P s) (λ s. is_open s ≡ true → s.id ≢ o.session_id → Q s)
          m.db.sessions (λ s p opened ne. f s opened ne (p opened)) h))

remove-cases :
    (key k : GameKey) (o p : OpenSession) (t : Table GameKey OpenSession)
    → lookup k (remove key t) ≡ some p
    → (key ≢ k) × (lookup k t ≡ some p)
remove-cases key k o p t e =
    let e' : (if key == k then none else lookup k t) ≡ some p = sym (lookup-remove key k t) ∙ e in
    (ground (arith, key_beq_iff key k, e'), ground arith)

remove_other :
    (key k : GameKey) (p : OpenSession) (t : Table GameKey OpenSession)
    → key ≢ k
    → lookup k t ≡ some p
    → lookup k (remove key t) ≡ some p
remove_other key k p t ne e = ground (arith, lookup-remove key k t, key_beq_iff key k, e)

-- A manager whose entry `key` was removed and whose row was closed is linked.
stop-Linked :
    (m m' : SessionManager) (key : GameKey) (o : OpenSession)
    → Linked m
    → lookup key m.open_sessions ≡ some o
    → Closed o (record m { open_sessions = remove key m.open_sessions }) m'
    → Linked m'
stop-Linked m m' key o link entry c = record {
  valid = c.valid;
  unique = rw c.entries (remove-Unique key m.open_sessions link.unique);
  backed = λ k p e.
      let (ne, old) = remove-cases key k o p m.open_sessions (rw c.entries at e) in
      Backed-Closed o p (record m { open_sessions = remove key m.open_sessions }) m' c
        (λ same. ne (sym (link.apart k key p o old entry same))) (link.backed k p old);
  apart = λ j k p q ej ek.
      link.apart j k p q (remove-cases key j o p m.open_sessions (rw c.entries at ej)).1
        (remove-cases key k o q m.open_sessions (rw c.entries at ek)).1;
  held =
      All-Closed
        (λ s.
          (k : GameKey) × (p : OpenSession) × (lookup k m.open_sessions ≡ some p)
          × (p.session_id ≡ s.id))
        (λ s.
          (k : GameKey) × (p : OpenSession) × (lookup k m'.open_sessions ≡ some p)
          × (p.session_id ≡ s.id))
        o (record m { open_sessions = remove key m.open_sessions }) m' link.valid c
        (λ s opened ne held.
          let (k, p, e, at_id) = held in
          (
            k,
            p,
            rw c.entries (
                remove_other key k p m.open_sessions
                  (λ same. ne (ground (arith, e, at_id, entry, same))) e),
            at_id,
          ))
        link.held;
}

pub handle_stopped-Linked :
    (key : GameKey) (at : ℕ) (now : Reading) (m : SessionManager)
    → Linked m
    → Linked (handle_stopped key at now m).1
unfolding handle_stopped
handle_stopped-Linked key at now m link = elim (Option-cases (lookup key m.open_sessions)) [
  | inl e ↦ rw e link
  | inr (o, e) ↦
      let m' = record m { open_sessions = remove key m.open_sessions } in
      let (m'', closed, c) =
        close_session-ok o at ExitReason.terminated now m' link.valid (link.backed key o e) in
      rw (e, closed) (stop-Linked m m'' key o link e c)
]
