-- ===== src/Store/Closing.antt =====
-- `close_and_rollup`: it keeps the database valid, and closes a session once.
use ludex.Base.{
  ℕ, ◌≡◌, refl, inl, inr, Bool, true, List, [], ◌∷◌, arith, ◌==◌, nat_eq, if◌then◌else◌, ◌∙◌,
  Bool-cases, length, any, where_rows, All, All-map,
}
use ludex.Types.{Application, Session, RuntimeSnapshot, ExitReason, ok, ◌>>=◌}
use ludex.Store.{
  Db, close_and_rollup, update_where, close, roll_up, has_id, is_open, is_open_id, runtimes_checked,
}
use ludex.Store.Rows.{
  Replaced, Replaced-old, Replaced-closed_id, Replaced-Ids, Replaced-OneOpen, Replaced-All,
  Replaced-length, Replaced-sum_of, Replaced-max_of,
}
use ludex.Store.Invariant.{IsValid, IsChecked, Agrees, HasApplication, AppIds}
use ludex.Store.Sessions.{Keeps, missed, refused, written, update_open_lem}

-- The rows with this id belong to this application.
abbrev pub Owns : ℕ → ℕ → List Session → Type 0
Owns session_id application_id = All (λ s. s.id ≡ session_id → s.application_id ≡ application_id)

-- The statistics of each application after one of its rows, or of another's, was closed.
close-Agrees :
    (application_id : ℕ) (snapshot : RuntimeSnapshot) (reason : ExitReason) (s : Session)
    (rows rows' : List Session) (app : Application)
    → s.application_id ≡ application_id
    → is_open s ≡ true
    → Replaced s (close snapshot reason s) rows rows'
    → Agrees rows app
    → Agrees rows' (if has_id application_id app then roll_up snapshot app else app)
close-Agrees application_id snapshot reason s rows rows' app owner opened rest h =
    let count = Replaced-length app.id opened refl rest in
    let full = Replaced-sum_of app.id opened refl (λ s. s.full_runtime_seconds) rest in
    let interactive =
      Replaced-sum_of app.id opened refl (λ s. s.interactive_runtime_seconds) rest in
    let longest = Replaced-max_of app.id opened refl (λ s. s.full_runtime_seconds) rest in
    elim (Bool-cases (has_id application_id app)) [
      | inl e ↦ rw e (record {
        run_count = ground arith;
        total_full = ground arith;
        total_interactive = ground arith;
        longest_full = ground arith;
      })
      | inr e ↦ rw e (record {
        run_count = ground arith;
        total_full = ground arith;
        total_interactive = ground arith;
        longest_full = ground arith;
      })
    ]

update-Agrees :
    (application_id : ℕ) (snapshot : RuntimeSnapshot) (reason : ExitReason) (s : Session)
    (rows rows' : List Session) (apps : List Application)
    → s.application_id ≡ application_id
    → is_open s ≡ true
    → Replaced s (close snapshot reason s) rows rows'
    → All (Agrees rows) apps
    → All (Agrees rows') (update_where (has_id application_id) (roll_up snapshot) apps)
update-Agrees application_id snapshot reason s rows rows' [] owner opened rest h = tt
update-Agrees application_id snapshot reason s rows rows' (app ∷ apps) owner opened rest h = (
  close-Agrees application_id snapshot reason s rows rows' app owner opened rest h.0,
  update-Agrees application_id snapshot reason s rows rows' apps owner opened rest h.1,
)

-- An UPDATE of applications that keeps their ids.
pub update-AppIds :
    (p : Application → Bool) (f : Application → Application) (n : ℕ) (apps : List Application)
    → ((app : Application) → (f app).id ≡ app.id)
    → AppIds n apps
    → AppIds n (update_where p f apps)
update-AppIds p f n [] keep h = tt
update-AppIds p f n (app ∷ apps) keep h =
    ground (arith, keep app, update-AppIds p f app.id apps keep h.1)

pub update-has_id :
    (p : Application → Bool) (f : Application → Application) (id : ℕ) (apps : List Application)
    → ((app : Application) → (f app).id ≡ app.id)
    → any (has_id id) (update_where p f apps) ≡ any (has_id id) apps
update-has_id p f id [] keep = refl
update-has_id p f id (app ∷ apps) keep = ground (arith, keep app, update-has_id p f id apps keep)

pub owned-update :
    (p : Application → Bool) (f : Application → Application) (apps : List Application)
    → ((app : Application) → (f app).id ≡ app.id)
    → (rows : List Session) → All (HasApplication apps) rows
    → All (HasApplication (update_where p f apps)) rows
owned-update p f apps keep rows =
    All-map (HasApplication apps) (HasApplication (update_where p f apps)) rows
      λ s h. update-has_id p f s.application_id apps keep ∙ h

pub written-close-IsValid :
    (application_id : ℕ) (snapshot : RuntimeSnapshot) (reason : ExitReason) (db : Db) (s : Session)
    (rows' : List Session)
    → IsValid db
    → runtimes_checked snapshot ≡ true
    → s.application_id ≡ application_id
    → is_open s ≡ true
    → Replaced s (close snapshot reason s) db.sessions rows'
    → IsValid (record db {
      sessions = rows';
      applications = update_where (has_id application_id) (roll_up snapshot) db.applications;
    })
written-close-IsValid application_id snapshot reason db s rows' v checked owner opened rest =
    record {
      session_ids = Replaced-Ids db.next_session_id rest refl v.session_ids;
      application_ids =
          update-AppIds (has_id application_id) (roll_up snapshot) db.next_application_id
            db.applications (λ app. refl) v.application_ids;
      one_open = Replaced-OneOpen rest (refl, opened) v.one_open;
      checked = Replaced-All IsChecked rest (ground arith) v.checked;
      owned =
          owned-update (has_id application_id) (roll_up snapshot) db.applications (λ app. refl)
            rows'
            (Replaced-All (HasApplication db.applications) rest
              (Replaced-old (HasApplication db.applications) rest v.owned) v.owned);
      agrees =
          update-Agrees application_id snapshot reason s db.sessions rows' db.applications owner
            opened rest v.agrees;
    }

-- Closing a session and rolling it up, for the application that owns it, keeps a valid database
-- valid: each application's statistics are again the count, the sums and the maximum over its closed
-- rows.
pub close_and_rollup-IsValid :
    (session_id application_id : ℕ) (snapshot : RuntimeSnapshot) (reason : ExitReason) (db : Db)
    → IsValid db
    → Owns session_id application_id db.sessions
    → Keeps IsValid (close_and_rollup session_id application_id snapshot reason db)
unfolding close_and_rollup
close_and_rollup-IsValid session_id application_id snapshot reason db v owns =
    elim (update_open_lem session_id snapshot (close snapshot reason) db.next_session_id db.sessions
      v.session_ids) [
        | missed zero_rows e ↦ rw (e, ◌>>=◌, zero_rows) v
        | refused _ _ e ↦ rw (e, ◌>>=◌) tt
        | written s rows' some_rows checked same opened rest e ↦
            rw (e, ◌>>=◌, some_rows)
              (written-close-IsValid application_id snapshot reason db s rows' v checked
                (Replaced-old _ rest owns same) opened rest)
      ]

-- After a close that went through, with a row or without, no row with that id is open.
closed_after :
    (session_id application_id : ℕ) (snapshot : RuntimeSnapshot) (reason : ExitReason) (db : Db)
    → IsValid db
    → Keeps
        (λ db'. (length (where_rows (is_open_id session_id) db'.sessions) == 0) ≡ true)
        (close_and_rollup session_id application_id snapshot reason db)
unfolding close_and_rollup
closed_after session_id application_id snapshot reason db v =
    elim (update_open_lem session_id snapshot (close snapshot reason) db.next_session_id db.sessions
      v.session_ids) [
        | missed zero_rows e ↦ rw (e, ◌>>=◌, zero_rows) zero_rows
        | refused _ _ e ↦ rw (e, ◌>>=◌) tt
        | written s rows' some_rows checked same opened rest e ↦
            rw (e, ◌>>=◌, some_rows)
              (Replaced-closed_id session_id db.next_session_id rest v.session_ids same refl)
      ]

close_none :
    (session_id application_id : ℕ) (snapshot : RuntimeSnapshot) (reason : ExitReason) (db : Db)
    → (length (where_rows (is_open_id session_id) db.sessions) == 0) ≡ true
    → close_and_rollup session_id application_id snapshot reason db ≡ ok db
unfolding close_and_rollup
close_none session_id application_id snapshot reason db e = rw (e, ◌>>=◌)

-- Closing a session again, with any figures and for any application, changes nothing: neither the
-- row that the first close wrote nor any statistics.
pub close_and_rollup_twice :
    (session_id application_id application_id' : ℕ) (snapshot snapshot' : RuntimeSnapshot)
    (reason reason' : ExitReason) (db db' : Db)
    → IsValid db
    → close_and_rollup session_id application_id snapshot reason db ≡ ok db'
    → close_and_rollup session_id application_id' snapshot' reason' db' ≡ ok db'
close_and_rollup_twice session_id a a' snapshot snapshot' reason reason' db db' v e =
    close_none session_id a' snapshot' reason' db'
      (rw e at (closed_after session_id a snapshot reason db v))
