-- ===== src/Store/Sessions.antt =====
-- `begin`, `heartbeat`, `close_and_rollup`: what each does, and that it keeps the database valid.
use ludex.Base.{
  ℕ, ◌≡◌, refl, inl, inr, true, false, List, ◌∷◌, arith, ◌==◌, nat_eq, Bool-cases, length, any,
  where_rows, All-map,
}
use ludex.Types.{Application, Session, RuntimeSnapshot, Error, Result, ok, err, ◌>>=◌}
use ludex.Store.{
  Db, begin, heartbeat, update_open, beat, has_id, is_open, is_open_id, is_open_for,
  runtimes_checked,
}
use ludex.Store.Rows.{
  Ids, Replaced, update_where-Replaced, update_where_none, Replaced-old, Replaced-Ids,
  Replaced-OneOpen, Replaced-All, Replaced-closed_rows,
}
use ludex.Store.Invariant.{IsValid, IsChecked, Agrees, HasApplication}

-- A result that, where it is `ok`, satisfies `P`; an error leaves the database as it was.
abbrev pub Keeps {ℓ} : {A : Type ℓ} → (A → Type 0) → Result A → Type 0
Keeps P (ok a) = P a
Keeps P (err e) = Unit {0}

-- A new row is open, so it counts in no statistics.
open-Agrees :
    (s : Session) (rows : List Session) (app : Application)
    → is_open s ≡ true
    → Agrees rows app
    → Agrees (s ∷ rows) app
open-Agrees s rows app opened h = ground arith

-- Opening a session keeps a valid database valid: ids stay fresh, no application has two open
-- sessions, and all statistics agree with the closed rows.
pub begin-IsValid :
    (application_id started_at : ℕ) (db : Db)
    → IsValid db
    → Keeps (λ r. IsValid r.1) (begin application_id started_at db)
unfolding begin
begin-IsValid application_id started_at db v =
    elim (Bool-cases (any (is_open_for application_id) db.sessions)) [
      | inl e ↦ rw e tt
      | inr e ↦ elim (Bool-cases (any (has_id application_id) db.applications)) [
        | inr e' ↦ rw (e, e') tt
        | inl e' ↦
            rw (e, e')
              (record {
                session_ids = (omega arith, v.session_ids);
                application_ids = v.application_ids;
                one_open = (λ _. e, v.one_open);
                checked = (omega arith, v.checked);
                owned = (e', v.owned);
                agrees =
                    All-map _ _ db.applications (λ app. open-Agrees _ db.sessions app refl)
                      v.agrees;
              })
      ]
    ]

-- How an UPDATE of the open row with one id ends: no row meets its condition, the CHECK refuses it,
-- or it writes that one row.
pub data Update (id : ℕ) (snapshot : RuntimeSnapshot) (f : Session → Session) (rows : List Session)
    : Type 0 where
  missed :
      (length (where_rows (is_open_id id) rows) == 0) ≡ true
      → update_open id snapshot f rows ≡ ok rows
      → Update id snapshot f rows
  refused :
      (length (where_rows (is_open_id id) rows) == 0) ≡ false
      → runtimes_checked snapshot ≡ false
      → update_open id snapshot f rows ≡ err Error.sql
      → Update id snapshot f rows
  written :
      (s : Session) (rows' : List Session)
      → (length (where_rows (is_open_id id) rows) == 0) ≡ false
      → runtimes_checked snapshot ≡ true
      → s.id ≡ id
      → is_open s ≡ true
      → Replaced s (f s) rows rows'
      → update_open id snapshot f rows ≡ ok rows'
      → Update id snapshot f rows

pub update_open_lem :
    (id : ℕ) (snapshot : RuntimeSnapshot) (f : Session → Session) (n : ℕ) (rows : List Session)
    → Ids n rows
    → Update id snapshot f rows
update_open_lem id snapshot f n rows ids =
    elim (Bool-cases (length (where_rows (is_open_id id) rows) == 0)) [
      | inl e ↦ missed e (rw (e, update_where_none id f rows e))
      | inr e ↦ elim (Bool-cases (runtimes_checked snapshot)) [
        | inr e' ↦ refused e e' (rw (e, e'))
        | inl e' ↦
            let (s, same, opened, rest) = update_where-Replaced id f n rows ids e in
            written s _ e e' same opened rest (rw (e, e'))
      ]
    ]

-- A heartbeat that the CHECK lets pass writes one open row.
pub written-beat-IsValid :
    (snapshot : RuntimeSnapshot) (db : Db) (s : Session) (rows' : List Session)
    → IsValid db
    → runtimes_checked snapshot ≡ true
    → is_open s ≡ true
    → Replaced s (beat snapshot s) db.sessions rows'
    → IsValid (record db { sessions = rows' })
written-beat-IsValid snapshot db s rows' v checked opened rest = record {
  session_ids = Replaced-Ids db.next_session_id rest refl v.session_ids;
  application_ids = v.application_ids;
  one_open = Replaced-OneOpen rest (refl, opened) v.one_open;
  checked = Replaced-All IsChecked rest (ground arith) v.checked;
  owned =
      Replaced-All (HasApplication db.applications) rest
        (Replaced-old (HasApplication db.applications) rest v.owned) v.owned;
  agrees =
      All-map (Agrees db.sessions) (Agrees rows') db.applications
        (λ app h. ground (arith, Replaced-closed_rows app.id rest opened opened)) v.agrees;
}

-- A heartbeat keeps a valid database valid, whatever figures it brings: those that the CHECK refuses
-- are not written.
pub heartbeat-IsValid :
    (session_id : ℕ) (snapshot : RuntimeSnapshot) (db : Db)
    → IsValid db
    → Keeps IsValid (heartbeat session_id snapshot db)
unfolding heartbeat
heartbeat-IsValid session_id snapshot db v =
    elim (update_open_lem session_id snapshot (beat snapshot) db.next_session_id db.sessions
      v.session_ids) [
        | missed _ e ↦ rw (e, ◌>>=◌) v
        | refused _ _ e ↦ rw (e, ◌>>=◌) tt
        | written s rows' _ checked _ opened rest e ↦
            rw (e, ◌>>=◌) (written-beat-IsValid snapshot db s rows' v checked opened rest)
      ]
