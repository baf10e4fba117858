-- ===== src/Manager/Opening.antt =====
-- crates/ludex-daemon/src/session_manager.rs, `handle_started`: a start that opens a session.
use ludex.Base.{
  ◌++◌, nat_eq, suc, ℕ, ◌≡◌, refl, ◌∙◌, ◌⊎◌, true, false, Bool, Option, none, some, All,
  Option-cases, String, List, [], ◌∷◌, any, arith, ◌==◌, Bool-cases, inl, inr, beq_self,
  beq-eq_true,
}
use ludex.Base.Table.{lookup, lookup-insert, contains, contains_key}
use ludex.Types.{Application, Session, GameKey, key_eq, ok}
use ludex.Idle.{session_start_baseline}
use ludex.Store.{Db, begin, has_id, is_open_for}
use ludex.Store.Invariant.{IsValid, HasApplication}
use ludex.Store.Applications.{NewApplication, find_by_key, key_of, create, inserted, fresh_id}
use ludex.Manager.{
  Effect, spawn_enrichment, notify, TrackerNotification, SessionManager, Reading, OpenSession,
  new_application, handle_started, find_or_create_application,
}

found-has_id :
    (key : GameKey) (apps : List Application) (app : Application)
    → find_by_key key apps ≡ some app
    → any (has_id app.id) apps ≡ true
unfolding find_by_key
found-has_id key [] app e = cc
found-has_id key (x ∷ apps) app e = elim (Bool-cases (key_of x == key)) [
  | inl same ↦ let row : x ≡ app = ground (arith, e, same) in ground (arith, row)
  | inr other ↦ ground (arith, found-has_id key apps app (ground (arith, e, other)))
]

-- Whether a game that is known has an open session.
abbrev pub is_busy : Option Application → List Session → Bool
is_busy none rows = false
is_busy (some app) rows = any (is_open_for app.id) rows

-- A game that is known, or one whose row is new, with what its creation starts.
abbrev pub FoundOrCreated :
    GameKey
    → String
    → Option String
    → ℕ
    → Application
    → List Effect
    → List Application
    → List Application
    → Type 0
FoundOrCreated key display_name executable_path at app effects before after =
    ((find_by_key key before ≡ some app) × (after ≡ before) × (effects ≡ []))
    ⊎ ((find_by_key key before ≡ none)
        × (after ≡ app ∷ before)
        × (app.product_name ≡ display_name)
        × (app.executable_path ≡ executable_path)
        × (app.first_seen_at ≡ at)
        × (effects
            ≡ spawn_enrichment app.id ∷ notify (TrackerNotification.application_added app.id) ∷ []))

-- What a start leaves behind: an application of the key, one row more in front of the others, and an
-- entry that names both.
pub record Started (key : GameKey) (display_name : String) (executable_path : Option String)
    (at : ℕ) (now : Reading) (m m' : SessionManager) : Type 0 where
  pub app : Application
  pub row : Session
  pub entry : OpenSession
  pub creation : List Effect
  pub application :
      FoundOrCreated key display_name executable_path at app creation m.db.applications
        m'.db.applications
  pub found : find_by_key key m'.db.applications ≡ some app
  pub rows : m'.db.sessions ≡ row ∷ m.db.sessions
  pub notified :
      m'.effects
      ≡ (m.effects ++ creation) ++ notify (TrackerNotification.session_started app.id) ∷ []
  pub row_id : row.id ≡ m.db.next_session_id
  pub row_owner : row.application_id ≡ app.id
  pub row_start : (row.started_at ≡ at) × (row.heartbeat_at ≡ at)
  pub row_open : (row.ended_at ≡ none) × (row.exit_reason ≡ none)
  pub row_runtimes : (row.full_runtime_seconds ≡ 0) × (row.interactive_runtime_seconds ≡ 0)
  pub tracked : lookup key m'.open_sessions ≡ some entry
  pub entry_session : (entry.session_id ≡ row.id) × (entry.application_id ≡ app.id)
  pub entry_instant : entry.started_instant ≡ now.instant
  pub entry_baseline :
      (entry.baseline_idle_intervals_count, entry.baseline_open_idle_seconds)
      ≡ session_start_baseline now.instant m.idle_tracker

-- An application that is not there has no open session.
unowned :
    (id : ℕ) (apps : List Application) (rows : List Session)
    → any (has_id id) apps ≡ false
    → All (HasApplication apps) rows
    → any (is_open_for id) rows ≡ false
unowned id apps [] e h = refl
unowned id apps (s ∷ rows) e h = elim (Bool-cases (s.application_id == id)) [
  | inl same ↦ cc (beq-eq_true s.application_id id same, h.0)
  | inr other ↦ ground (arith, other, unowned id apps rows e h.1)
]

create-ok :
    (fresh : NewApplication) (db : Db)
    → find_by_key (key_of (inserted 0 fresh)) db.applications ≡ none
    → create fresh db
      ≡ ok (
        inserted db.next_application_id fresh,
        record db {
          applications = inserted db.next_application_id fresh ∷ db.applications;
          next_application_id = suc db.next_application_id;
        },
      )
unfolding create
create-ok fresh db e = rw e refl

module _ (key : GameKey) (display_name : String) (executable_path : Option String) (at : ℕ)
    (now : Reading) (m : SessionManager) where
  known-Started :
      (app : Application)
      → contains m.blocklist key ≡ false
      → contains_key key m.open_sessions ≡ false
      → find_by_key key m.db.applications ≡ some app
      → any (is_open_for app.id) m.db.sessions ≡ false
      → let (r, m') = handle_started key display_name executable_path at now m in
        (r ≡ ok tt) × Started key display_name executable_path at now m m'
  unfolding handle_started find_or_create_application begin
  known-Started app unblocked untracked known closed =
      rw (unblocked, untracked, known, closed, found-has_id key m.db.applications app known)
        (
          refl,
          record {
            app = app;
            row = _;
            entry = _;
            creation = _;
            application = inl (known, refl, refl);
            found = known;
            rows = refl;
            notified = refl;
            row_id = refl;
            row_owner = refl;
            row_start = (refl, refl);
            row_open = (refl, refl);
            row_runtimes = (refl, refl);
            tracked = lookup-insert key key _ m.open_sessions ∙ rw (beq_self key) refl;
            entry_session = (refl, refl);
            entry_instant = refl;
            entry_baseline = refl;
          },
        )

  abbrev created : Application
  created = inserted m.db.next_application_id (new_application key display_name executable_path at)

  find-created : find_by_key key (created ∷ m.db.applications) ≡ some created
  unfolding find_by_key
  find-created = rw (beq_self key) refl

  unknown-Started :
      contains m.blocklist key ≡ false
      → contains_key key m.open_sessions ≡ false
      → find_by_key key m.db.applications ≡ none
      → any (is_open_for m.db.next_application_id) m.db.sessions ≡ false
      → let (r, m') = handle_started key display_name executable_path at now m in
        (r ≡ ok tt) × Started key display_name executable_path at now m m'
  unfolding handle_started find_or_create_application begin
  unknown-Started unblocked untracked unknown closed =
      let is_created =
        create-ok (new_application key display_name executable_path at) m.db unknown in
      let own : any (has_id m.db.next_application_id) (created ∷ m.db.applications) ≡ true =
        ground arith in
      rw (unblocked, untracked, unknown, is_created, closed, own)
        (
          refl,
          record {
            app = created;
            row = _;
            entry = _;
            creation = _;
            application = inr (unknown, refl, refl, refl, refl, refl);
            found = find-created;
            rows = refl;
            notified = refl;
            row_id = refl;
            row_owner = refl;
            row_start = (refl, refl);
            row_open = (refl, refl);
            row_runtimes = (refl, refl);
            tracked = lookup-insert key key _ m.open_sessions ∙ rw (beq_self key) refl;
            entry_session = (refl, refl);
            entry_instant = refl;
            entry_baseline = refl;
          },
        )

-- A start of a game that is neither blocked nor tracked and has no open session, with a valid database,
-- succeeds: the game is known or its application is created; one row is added to the sessions, of that
-- application, under the next id, open, from this time on and without runtime; and the game is tracked
-- with this row, from this instant on and with the idle time so far as its baseline. The start is notified,
-- behind what the creation started: the enrichment of the new application and the notice of it.
pub handle_started-Started :
    (key : GameKey) (display_name : String) (executable_path : Option String) (at : ℕ)
    (now : Reading) (m : SessionManager)
    → IsValid m.db
    → contains m.blocklist key ≡ false
    → contains_key key m.open_sessions ≡ false
    → is_busy (find_by_key key m.db.applications) m.db.sessions ≡ false
    → let (r, m') = handle_started key display_name executable_path at now m in
      (r ≡ ok tt) × Started key display_name executable_path at now m m'
handle_started-Started key display_name executable_path at now m v unblocked untracked idle =
    elim (Option-cases (find_by_key key m.db.applications)) [
      | inl unknown ↦
          unknown-Started key display_name executable_path at now m unblocked untracked unknown (
            unowned m.db.next_application_id m.db.applications m.db.sessions
              (fresh_id m.db.next_application_id m.db.next_application_id m.db.applications
                v.application_ids (omega arith))
              v.owned)
      | inr (app, known) ↦
          known-Started key display_name executable_path at now m app unblocked untracked known
            (rw known at idle)
    ]
