-- ===== src/Manager/Started.antt =====
-- `handle_started` keeps the link.
use ludex.Base.{
  ℕ, ◌<◌, ◌≡◌, ◌≢◌, refl, sym, ap, ◌∙◌, ◌⊎◌, inl, inr, true, Option, none, some, List, ◌∷◌, String,
  arith, All-map, Bool-cases, ◌==◌, beq-eq_true, if◌then◌else◌,
}
use ludex.Base.Table.{
  Table, lookup, insert, contains_key, contains, lookup-insert, contains_key-none, insert-Unique,
}
use ludex.Types.{
  Application, Session, GameKey, key_eq, key_beq_iff, Error, Result, ok, err, Result-cases,
  >>=-eq-ok,
}
use ludex.Store.{Db, find_by_id, is_open, begin}
use ludex.Store.Rows.{Ids}
use ludex.Store.Invariant.{IsValid}
use ludex.Store.Sessions.{begin-IsValid}
use ludex.Store.Find.{find_by_id-id}
use ludex.Store.Applications.{NewApplication, find_by_key, create, create-IsValid, create-sessions}
use ludex.Manager.{
  SessionManager, OpenSession, Reading, Ensured, ensured, begun, find_or_create_application,
  handle_started, or_create,
}
use ludex.Manager.Link.{Linked, Backed, Held}

-- What `begin` has done where it succeeds: one open row more, under the next id.
record Begun (application_id : ℕ) (db : Db) (s : Session) (db' : Db) : Type 0 where
  inserted : db'.sessions ≡ s ∷ db.sessions
  fresh : s.id ≡ db.next_session_id
  opened : is_open s ≡ true
  owner : s.application_id ≡ application_id

begin-Begun :
    (application_id at : ℕ) (db : Db) (s : Session) (db' : Db)
    → begin application_id at db ≡ ok (s, db')
    → Begun application_id db s db'
unfolding begin
begin-Begun application_id at db s db' e = record {
  inserted = ground arith;
  fresh = ground arith;
  opened = ground arith;
  owner = ground arith;
}

Backed-cons :
    (n : ℕ) (s : Session) (rows : List Session) (o : OpenSession)
    → s.id ≡ n
    → o.session_id < n
    → Backed rows o
    → Backed (s ∷ rows) o
unfolding find_by_id
Backed-cons n s rows o fresh below (t, at_id, opened, owner) = (t, ground arith, opened, owner)

-- An entry after an insertion: the new one, or an old one under another key.
insert-cases :
    (key k : GameKey) (o p : OpenSession) (t : Table GameKey OpenSession)
    → lookup key t ≡ none
    → lookup k (insert key o t) ≡ some p
    → ((key ≡ k) × (o ≡ p)) ⊎ ((key ≢ k) × (lookup k t ≡ some p))
insert-cases key k o p t missing e =
    let e' : (if key == k then some o else lookup k t) ≡ some p =
      sym (lookup-insert key k o t) ∙ e in
    elim (Bool-cases (key == k)) [
      | inl same ↦ inl (beq-eq_true key k same, ground arith)
      | inr other ↦ inr (ground (arith, key_beq_iff key k), ground arith)
    ]

insert_other :
    (key k : GameKey) (o p : OpenSession) (t : Table GameKey OpenSession)
    → lookup key t ≡ none
    → lookup k t ≡ some p
    → lookup k (insert key o t) ≡ some p
insert_other key k o p t missing e =
    ground (arith, lookup-insert key k o t, key_beq_iff key k, missing, e)

insert_self :
    (key : GameKey) (o : OpenSession) (t : Table GameKey OpenSession)
    → lookup key (insert key o t) ≡ some o
insert_self key o t = ground (arith, lookup-insert key key o t, key_beq_iff key key)

Backed-below :
    (n : ℕ) (rows : List Session) (o : OpenSession) → Ids n rows → Backed rows o → o.session_id < n
Backed-below n rows o ids (s, at_id, _, _) =
    ground (arith, find_by_id-id o.session_id n rows s ids at_id)

-- A manager with one entry and one open row more than a linked one is linked.
start-Linked :
    (m m' : SessionManager) (key : GameKey) (o : OpenSession) (s : Session)
    → Linked m
    → lookup key m.open_sessions ≡ none
    → IsValid m'.db
    → m'.open_sessions ≡ insert key o m.open_sessions
    → Begun o.application_id m.db s m'.db
    → o.session_id ≡ s.id
    → Linked m'
unfolding find_by_id
start-Linked m m' key o s link missing valid table b same = record {
  valid = valid;
  unique = rw table (insert-Unique key o m.open_sessions link.unique);
  backed = λ k p e.
      rw b.inserted (elim (insert-cases key k o p m.open_sessions missing (rw table at e)) [
        | inl (_, mine) ↦ rw (← mine) (s, ground arith, b.opened, b.owner)
        | inr (_, old) ↦
            Backed-cons m.db.next_session_id s m.db.sessions p b.fresh (below k p old)
              (link.backed k p old)
      ]);
  apart = λ j k p q ej ek eq.
      elim (insert-cases key j o p m.open_sessions missing (rw table at ej)) [
        | inl (at_j, mine_j) ↦
            elim (insert-cases key k o q m.open_sessions missing (rw table at ek)) [
              | inl (at_k, _) ↦ sym at_j ∙ at_k
              | inr (_, old) ↦ absurd (clash k q old (mine_j, eq))
            ]
        | inr (_, old_j) ↦ elim (insert-cases key k o q m.open_sessions missing (rw table at ek)) [
          | inl (_, mine_k) ↦ absurd (clash j p old_j (mine_k, sym eq))
          | inr (_, old) ↦ link.apart j k p q old_j old eq
        ]
      ];
  held = rw b.inserted (
    (λ _. (key, o, rw table (insert_self key o m.open_sessions), same)),
    All-map (Held m.open_sessions) (Held m'.open_sessions) m.db.sessions
        (λ r h opened.
          let (k, p, e, at_id) = h opened in
          (k, p, rw table (insert_other key k o p m.open_sessions missing e), at_id))
        link.held,
  );
}
  where
    below :
        (k : GameKey) (p : OpenSession)
        → lookup k m.open_sessions ≡ some p
        → p.session_id < m.db.next_session_id
    below k p e =
        Backed-below m.db.next_session_id m.db.sessions p link.valid.session_ids (link.backed k p e)

    clash :
        (k : GameKey) (p : OpenSession)
        → lookup k m.open_sessions ≡ some p
        → {q : OpenSession} → ((o ≡ q) × (q.session_id ≡ p.session_id))
        → ⊥
    clash k p e {q} h = ground (arith, below k p e)

-- A manager with the same rows and entries.
pub same-Linked :
    (m m' : SessionManager)
    → Linked m
    → IsValid m'.db
    → m'.db.sessions ≡ m.db.sessions
    → m'.open_sessions ≡ m.open_sessions
    → Linked m'
same-Linked m m' link valid rows table = record {
  valid = valid;
  unique = rw table link.unique;
  backed = λ k o e. rw rows (link.backed k o (rw table at e));
  apart = λ j k p o ej ek. link.apart j k p o (rw table at ej) (rw table at ek);
  held = rw rows (
      All-map (Held m.open_sessions) (Held m'.open_sessions) m.db.sessions
        (λ r h opened. let (k, p, e, at_id) = h opened in (k, p, rw table e, at_id)) link.held);
}

begun-Linked :
    (key : GameKey) (app : Application) (at : ℕ) (now : Reading) (m : SessionManager)
    (r : Result (Session × Db))
    → Linked m
    → lookup key m.open_sessions ≡ none
    → begin app.id at m.db ≡ r
    → Linked (begun key app now m r).1
begun-Linked key app at now m (err (Error.open_session_exists _)) link missing e = link
begun-Linked key app at now m (err (Error.invariant why)) link missing e = link
begun-Linked key app at now m (err Error.sql) link missing e = link
begun-Linked key app at now m (ok (s, db')) link missing e =
    start-Linked m (begun key app now m (ok (s, db'))).1 key _ s link missing
      (rw e at (begin-IsValid app.id at m.db link.valid)) refl (begin-Begun app.id at m.db s db' e)
      refl

or_create-IsValid :
    (row : Option Application) (fresh : NewApplication) (db : Db) (found : Ensured)
    → IsValid db
    → or_create row fresh db ≡ ok found
    → IsValid found.1 × (found.1.sessions ≡ db.sessions)
or_create-IsValid (some app) fresh db found v e =
    let same : db ≡ found.1 = ground arith in
    (rw (← same) v, ap (λ (d : Db). d.sessions) (sym same))
or_create-IsValid none fresh db found v e =
    let ((app, db'), created, rest) = >>=-eq-ok (create fresh db) _ e in
    let same : db' ≡ found.1 = ground arith in
    (
      rw (← same) (rw created at (create-IsValid fresh db v)),
      rw (← same) (create-sessions fresh db app db' created),
    )

-- The application is found, or created in front of the others: no session changes.
ensured-IsValid :
    (key : GameKey) (display_name : String) (executable_path : Option String) (at : ℕ) (db : Db)
    (found : Ensured)
    → IsValid db
    → find_or_create_application key display_name executable_path at db ≡ ok found
    → IsValid found.1 × (found.1.sessions ≡ db.sessions)
unfolding find_or_create_application
ensured-IsValid key display_name executable_path at db found v e =
    or_create-IsValid (find_by_key key db.applications) _ db found v e

pub handle_started-Linked :
    (key : GameKey) (display_name : String) (executable_path : Option String) (at : ℕ)
    (now : Reading) (m : SessionManager)
    → Linked m
    → Linked (handle_started key display_name executable_path at now m).1
unfolding handle_started
handle_started-Linked key display_name executable_path at now m link =
    elim (Bool-cases (contains m.blocklist key)) [
      | inl e ↦ rw e link
      | inr e ↦ elim (Bool-cases (contains_key key m.open_sessions)) [
        | inl e' ↦ rw (e, e') link
        | inr e' ↦
            elim (Result-cases
              (find_or_create_application key display_name executable_path at m.db)) [
                | inr (error, e'') ↦ rw (e, e', e'') link
                | inl (found, e'') ↦
                    let (valid, rows) =
                      ensured-IsValid key display_name executable_path at m.db found link.valid
                        e'' in
                    rw (e, e', e'')
                      (begun-Linked key found.0 at now (ensured m found) _
                        (same-Linked m (ensured m found) link valid rows refl)
                        (contains_key-none key m.open_sessions e') refl)
              ]
      ]
    ]
