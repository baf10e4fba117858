-- ===== src/Manager/Shutdown.antt =====
-- The end of `run` and the start of the daemon: every session that is open is closed.
use ludex.Base.{
  ℕ, ◌≡◌, ◌≢◌, refl, inl, inr, true, false, some, List, [], ◌∷◌, arith, All, All-map, All-map₂, any,
  Bool-cases, ◌==◌, nat_eq, where_rows,
}
use ludex.Base.Table.{Table, lookup, Unique, Unique-lookup, lookup-cons}
use ludex.Types.{Session, ExitReason, GameKey, key_eq}
use ludex.Store.{Db, is_open, list_all_orphans}
use ludex.Store.Invariant.{IsValid}
use ludex.Manager.{
  SessionManager, OpenSession, Input, Reading, close_each, close_all_open, values, serve, run,
}
use ludex.Manager.Link.{Linked, Backed, Held}
use ludex.Manager.Run.{entries-All, serve-Linked}
use ludex.Manager.Closing.{close_session-ok, Backed-Closed, All-Closed}

-- No two of the sessions are one.
abbrev Apart : List OpenSession → Type 0
Apart [] = Unit {0}
Apart (o ∷ os) = All (λ p. p.session_id ≢ o.session_id) os × Apart os

-- The sessions still to be closed are the open rows.
record Draining (os : List OpenSession) (m : SessionManager) : Type 0 where
  valid : IsValid m.db
  backed : All (Backed m.db.sessions) os
  apart : Apart os
  covered : All (λ s. is_open s ≡ true → any (λ o. o.session_id == s.id) os ≡ true) m.db.sessions

close_each-Draining :
    (os : List OpenSession) (reason : ExitReason) (now : Reading) (m : SessionManager)
    → Draining os m
    → Draining [] (close_each os reason now m)
unfolding close_each
close_each-Draining [] reason now m d = d
close_each-Draining (o ∷ os) reason now m d =
    let (m', e, c) = close_session-ok o now.wall reason now m d.valid d.backed.0 in
    rw (e, close_each)
      (close_each-Draining os reason now m' (record {
        valid = c.valid;
        backed =
            All-map₂ (λ p. p.session_id ≢ o.session_id) (Backed m.db.sessions)
              (Backed m'.db.sessions) os (λ p ne. Backed-Closed o p m m' c ne) d.apart.0 d.backed.1;
        apart = d.apart.1;
        covered =
            All-Closed (λ s. any (λ p. p.session_id == s.id) (o ∷ os) ≡ true)
              (λ s. any (λ p. p.session_id == s.id) os ≡ true) o m m' d.valid c
              (λ s opened ne among. ground (arith, ne, among)) d.covered;
      }))

values-Apart :
    (t : Table GameKey OpenSession)
    → Unique t
    → ((j k : GameKey) (p o : OpenSession)
        → lookup j t ≡ some p
        → lookup k t ≡ some o
        → p.session_id ≡ o.session_id
        → j ≡ k)
    → Apart (values t)
values-Apart [] u apart = tt
values-Apart ((k, o) ∷ t) u apart = (
  entries-All (λ p. p.session_id ≢ o.session_id) t u.1
      (λ j p e same. cc (
        u.0,
        e,
        apart j k p o (lookup-cons k j o p t u.0 e) (Unique-lookup ((k, o) ∷ t) u).0 same,
      )),
  values-Apart t u.1 (λ i j p q ei ej.
      apart i j p q (lookup-cons k i o p t u.0 ei) (lookup-cons k j o q t u.0 ej)),
)

lookup-any :
    (k : GameKey) (o : OpenSession) (id : ℕ) (t : Table GameKey OpenSession)
    → lookup k t ≡ some o
    → o.session_id ≡ id
    → any (λ p. p.session_id == id) (values t) ≡ true
unfolding lookup
lookup-any k o id [] e same = cc
lookup-any k o id ((j, p) ∷ t) e same = ground (arith, lookup-any k o id t)

-- No row of the database is open.
abbrev pub NoneOpen : Db → Type 0
NoneOpen db = list_all_orphans db ≡ []

pub none_covered :
    (rows : List Session)
    → All (λ s. is_open s ≡ true → false ≡ true) rows
    → where_rows is_open rows ≡ []
none_covered [] h = refl
none_covered (s ∷ rows) h = elim (Bool-cases (is_open s)) [
  | inl e ↦ cc (h.0 e)
  | inr e ↦ rw e (none_covered rows h.1)
]

close_all_open-none :
    (reason : ExitReason) (now : Reading) (m : SessionManager)
    → Linked m
    → IsValid (close_all_open reason now m).db × NoneOpen (close_all_open reason now m).db
unfolding close_all_open list_all_orphans
close_all_open-none reason now m link =
    let d =
      close_each-Draining (values m.open_sessions) reason now (record m { open_sessions = [] })
        (record {
          valid = link.valid;
          backed = entries-All (Backed m.db.sessions) m.open_sessions link.unique link.backed;
          apart = values-Apart m.open_sessions link.unique link.apart;
          covered =
              All-map (Held m.open_sessions)
                (λ s.
                  is_open s ≡ true
                  → any (λ o. o.session_id == s.id) (values m.open_sessions) ≡ true)
                m.db.sessions
                (λ s h opened.
                  let (k, o, e, at_id) = h opened in lookup-any k o s.id m.open_sessions e at_id)
                link.held;
        }) in
    (d.valid, none_covered _ d.covered)

-- Where the entries of the table of open sessions are, one to one, the open rows of a valid
-- database, no session is open after `run`, whatever its inputs were, and the database is valid.
pub run-NoneOpen :
    (inputs : List (Input × Reading)) (last : Reading) (m : SessionManager)
    → Linked m
    → IsValid (run inputs last m).db × NoneOpen (run inputs last m).db
unfolding run
run-NoneOpen inputs last m link =
    close_all_open-none ExitReason.terminated last (serve inputs m) (serve-Linked inputs m link)
