-- ===== src/Store/Applications.antt =====
-- crates/ludex-core/src/repo/application.rs: rows of `applications` created, found, patched and
-- deleted.
use ludex.Base.{
  ℕ, suc, ◌≤◌, ◌≡◌, refl, inl, inr, false, Option, none, some, List, [], ◌∷◌, String, arith, ◌==◌,
  nat_eq, string_eq, if◌then◌else◌, beq-eq_true, Bool-cases, is_some, any, All, All-map,
}
use ludex.Types.{
  Application, Session, GameKey, LauncherType, GraphicsPlatform, ProcessArchitecture, Icons, key_eq,
  Error, Result, ok, err,
}
use ludex.Store.{Db, has_id, closed_rows}
use ludex.Store.Invariant.{IsValid, HasApplication, AppIds}
use ludex.Store.Sessions.{Keeps}

pub record NewApplication : Type 0 where
  pub launcher_type : LauncherType
  pub launcher_id : String
  pub product_name : String
  pub publisher : Option String
  pub version : Option String
  pub executable_path : Option String
  pub launcher_exe_path : Option String
  pub wineprefix_path : Option String
  pub installed_flatpak_ref : Option String
  pub graphics_platform : GraphicsPlatform
  pub process_architecture : ProcessArchitecture
  pub group_id : Option ℕ
  pub icons : Icons
  pub first_seen_at : ℕ

abbrev pub key_of : Application → GameKey
key_of app = record { launcher_type = app.launcher_type; launcher_id = app.launcher_id }

-- `ApplicationRepo::find_by_key`.
unfoldable pub find_by_key : GameKey → List Application → Option Application
find_by_key key [] = none
find_by_key key (app ∷ apps) = if key_of app == key then some app else find_by_key key apps

-- The row that `create` inserts.
abbrev pub inserted : ℕ → NewApplication → Application
inserted id fresh = record {
  id = id;
  launcher_type = fresh.launcher_type;
  launcher_id = fresh.launcher_id;
  product_name = fresh.product_name;
  publisher = fresh.publisher;
  version = fresh.version;
  executable_path = fresh.executable_path;
  launcher_exe_path = fresh.launcher_exe_path;
  wineprefix_path = fresh.wineprefix_path;
  installed_flatpak_ref = fresh.installed_flatpak_ref;
  graphics_platform = fresh.graphics_platform;
  process_architecture = fresh.process_architecture;
  group_id = fresh.group_id;
  detected_via = none;
  icon_16 = fresh.icons.icon_16;
  icon_32 = fresh.icons.icon_32;
  icon_48 = fresh.icons.icon_48;
  icon_256 = fresh.icons.icon_256;
  first_seen_at = fresh.first_seen_at;
  last_played_at = none;
  stat_run_count = 0;
  stat_total_full = 0;
  stat_total_interactive = 0;
  stat_longest_full = 0;
}

-- `ApplicationRepo::create`. UNIQUE (launcher_type, launcher_id) refuses a key that is there.
unfoldable pub create : NewApplication → Db → Result (Application × Db)
create fresh db =
    if is_some (find_by_key (key_of (inserted 0 fresh)) db.applications)
    then err Error.sql
    else ok (
      inserted db.next_application_id fresh,
      record db {
        applications = inserted db.next_application_id fresh ∷ db.applications;
        next_application_id = suc db.next_application_id;
      },
    )

-- An id that is still to be given is no row's.
pub fresh_id :
    (id n : ℕ) (apps : List Application) → AppIds n apps → n ≤ id → any (has_id id) apps ≡ false
fresh_id id n [] h le = refl
fresh_id id n (app ∷ apps) h le = ground (arith, fresh_id id app.id apps h.1)

-- Sessions of other applications count in no statistics of this one.
closed_none :
    (id : ℕ) (apps : List Application) (rows : List Session)
    → any (has_id id) apps ≡ false
    → All (HasApplication apps) rows
    → closed_rows id rows ≡ []
closed_none id apps [] e h = refl
closed_none id apps (s ∷ rows) e h = elim (Bool-cases (s.application_id == id)) [
  | inl same ↦ cc (beq-eq_true s.application_id id same, h.0)
  | inr other ↦ ground (arith, other, closed_none id apps rows e h.1)
]

owned-cons :
    (app : Application) (apps : List Application) (rows : List Session)
    → All (HasApplication apps) rows
    → All (HasApplication (app ∷ apps)) rows
owned-cons app apps rows =
    All-map (HasApplication apps) (HasApplication (app ∷ apps)) rows (λ s h. ground arith)

-- Creating an application keeps a valid database valid.
pub create-IsValid :
    (fresh : NewApplication) (db : Db)
    → IsValid db
    → Keeps (λ (r : Application × Db). IsValid r.1) (create fresh db)
unfolding create
create-IsValid fresh db v =
    elim (Bool-cases (is_some (find_by_key (key_of (inserted 0 fresh)) db.applications))) [
      | inl e ↦ rw e tt
      | inr e ↦
          let none_closed =
            closed_none db.next_application_id db.applications db.sessions
              (fresh_id db.next_application_id db.next_application_id db.applications
                v.application_ids (omega arith))
              v.owned in
          rw e (record {
            session_ids = v.session_ids;
            application_ids = (omega arith, v.application_ids);
            one_open = v.one_open;
            checked = v.checked;
            owned =
                owned-cons (inserted db.next_application_id fresh) db.applications db.sessions
                  v.owned;
            agrees = (
              record {
                run_count = ground (arith, none_closed);
                total_full = ground (arith, none_closed);
                total_interactive = ground (arith, none_closed);
                longest_full = ground (arith, none_closed);
              },
              v.agrees,
            );
          })
    ]

pub create-sessions :
    (fresh : NewApplication) (db : Db) (app : Application) (db' : Db)
    → create fresh db ≡ ok (app, db')
    → db'.sessions ≡ db.sessions
unfolding create
create-sessions fresh db app db' e = ground arith
