-- ===== src/Store/Edits.antt =====
-- crates/ludex-core/src/repo/application.rs: rows of `applications` patched, deleted, and folded into one.
pub mod Moved
pub mod Valid
pub mod Merging
pub mod Merged
pub mod Playback
mod Tests
use ludex.Base.{
  ℕ, ◌+◌, min, max, Bool, true, false, not, ◌&&◌, Option, none, some, List, [], ◌∷◌, ◌==◌, nat_eq,
  if◌then◌else◌, any, where_rows, map_some,
}
use ludex.Types.{
  Application, Session, IdentityUpdate, GraphicsPlatform, ProcessArchitecture, Error, Result, ok,
  detected_via_text, err, ◌>>=◌,
}
use ludex.Store.{Db, update_where, has_id, is_open_for}

-- `COALESCE`.
abbrev pub coalesce {ℓ} : {A : Type ℓ} → Option A → Option A → Option A
coalesce none other = other
coalesce (some v) other = some v

abbrev pub given {ℓ} : {A : Type ℓ} → Option A → A → A
given none old = old
given (some v) old = v

-- The columns that `update_identity` sets: those that the patch gives.
abbrev pub patch : IdentityUpdate → Application → Application
patch update app = record app {
  product_name = given update.product_name app.product_name;
  publisher = coalesce update.publisher app.publisher;
  version = coalesce update.version app.version;
  executable_path = coalesce update.executable_path app.executable_path;
  launcher_exe_path = coalesce update.launcher_exe_path app.launcher_exe_path;
  wineprefix_path = coalesce update.wineprefix_path app.wineprefix_path;
  installed_flatpak_ref = coalesce update.installed_flatpak_ref app.installed_flatpak_ref;
  graphics_platform = given update.graphics_platform app.graphics_platform;
  process_architecture = given update.process_architecture app.process_architecture;
  group_id = coalesce update.group_id app.group_id;
  detected_via = coalesce (map_some detected_via_text update.detected_via) app.detected_via;
  icon_16 = coalesce update.icons.icon_16 app.icon_16;
  icon_32 = coalesce update.icons.icon_32 app.icon_32;
  icon_48 = coalesce update.icons.icon_48 app.icon_48;
  icon_256 = coalesce update.icons.icon_256 app.icon_256;
}

-- `ApplicationRepo::update_identity`, for a `group_id` that exists. A patch that gives nothing sets nothing.
unfoldable pub update_identity : ℕ → IdentityUpdate → Db → Db
update_identity id update db = record db {
  applications = update_where (has_id id) (patch update) db.applications;
}

-- The change to an application's aggregates that one closed session makes.
pub record PlaybackDelta : Type 0 where
  pub full_runtime_seconds : ℕ
  pub interactive_runtime_seconds : ℕ
  pub longest_full_candidate : Option ℕ
  pub last_played_at : ℕ

abbrev pub add_playback : PlaybackDelta → Application → Application
add_playback delta app = record app {
  stat_run_count = app.stat_run_count + 1;
  stat_total_full = app.stat_total_full + delta.full_runtime_seconds;
  stat_total_interactive = app.stat_total_interactive + delta.interactive_runtime_seconds;
  last_played_at = some delta.last_played_at;
}

abbrev pub raise_longest : ℕ → Option ℕ → List Application → List Application
raise_longest id none apps = apps
raise_longest id (some candidate) apps =
    update_where (has_id id)
      (λ app. record app { stat_longest_full = max app.stat_longest_full candidate }) apps

-- `ApplicationRepo::apply_playback`.
pub apply_playback : ℕ → PlaybackDelta → Db → Db
apply_playback id delta db = record db {
  applications =
      raise_longest id delta.longest_full_candidate
        (update_where (has_id id) (add_playback delta) db.applications);
}

-- `ON DELETE CASCADE`: the rows of an application go with it.
abbrev pub belongs_to : ℕ → Session → Bool
belongs_to id s = s.application_id == id

abbrev pub drop_application : ℕ → Db → Db
drop_application id db = record db {
  applications = where_rows (λ app. not (has_id id app)) db.applications;
  sessions = where_rows (λ s. not (belongs_to id s)) db.sessions;
}

-- `ApplicationRepo::delete`.
pub delete : ℕ → Db → Bool × Db
delete id db = (any (has_id id) db.applications, drop_application id db)

-- `ApplicationRepo::find_by_id`.
unfoldable pub find_application : ℕ → List Application → Option Application
find_application id [] = none
find_application id (app ∷ apps) = if has_id id app then some app else find_application id apps

-- `MAX(a, b)` of two operands, which is NULL where one is.
abbrev pub scalar_max : Option ℕ → Option ℕ → Option ℕ
scalar_max none b = none
scalar_max (some a) none = none
scalar_max (some a) (some b) = some (max a b)

-- The statement that adds up the aggregates.
abbrev pub absorb : Application → Application → Application
absorb src dst = record dst {
  stat_run_count = dst.stat_run_count + src.stat_run_count;
  stat_total_full = dst.stat_total_full + src.stat_total_full;
  stat_total_interactive = dst.stat_total_interactive + src.stat_total_interactive;
  stat_longest_full = max dst.stat_longest_full src.stat_longest_full;
  first_seen_at = min dst.first_seen_at src.first_seen_at;
  last_played_at = scalar_max dst.last_played_at src.last_played_at;
}

abbrev pub fill_platform : GraphicsPlatform → GraphicsPlatform → GraphicsPlatform
fill_platform GraphicsPlatform.unknown src = src
fill_platform dst src = dst

abbrev pub fill_architecture : ProcessArchitecture → ProcessArchitecture → ProcessArchitecture
fill_architecture ProcessArchitecture.unknown src = src
fill_architecture dst src = dst

-- `apply_metadata_fill`.
abbrev pub fill : Application → Application → Application
fill src dst = record dst {
  publisher = coalesce dst.publisher src.publisher;
  version = coalesce dst.version src.version;
  executable_path = coalesce dst.executable_path src.executable_path;
  launcher_exe_path = coalesce dst.launcher_exe_path src.launcher_exe_path;
  wineprefix_path = coalesce dst.wineprefix_path src.wineprefix_path;
  installed_flatpak_ref = coalesce dst.installed_flatpak_ref src.installed_flatpak_ref;
  group_id = coalesce dst.group_id src.group_id;
  icon_16 = coalesce dst.icon_16 src.icon_16;
  icon_32 = coalesce dst.icon_32 src.icon_32;
  icon_48 = coalesce dst.icon_48 src.icon_48;
  icon_256 = coalesce dst.icon_256 src.icon_256;
  graphics_platform = fill_platform dst.graphics_platform src.graphics_platform;
  process_architecture = fill_architecture dst.process_architecture src.process_architecture;
}

-- `UPDATE sessions SET application_id = ? WHERE application_id = ?`.
abbrev pub moved : ℕ → ℕ → List Session → List Session
moved src_id dst_id = update_where (belongs_to src_id) (λ s. record s { application_id = dst_id })

-- The unique index refuses the move where both applications have an open session.
abbrev pub reparent : ℕ → ℕ → List Session → Result (List Session)
reparent src_id dst_id rows =
    if any (is_open_for src_id) rows && any (is_open_for dst_id) rows
    then err Error.sql
    else ok (moved src_id dst_id rows)

abbrev pub merge_found : ℕ → ℕ → Option Application → Db → Result Db
merge_found src_id dst_id none db = err (Error.invariant "merge: source application not found")
merge_found src_id dst_id (some src) db =
    if not (any (has_id dst_id) db.applications)
    then err (Error.invariant "merge: destination application not found")
    else do
      rows ← reparent src_id dst_id db.sessions
      ok (
          drop_application src_id (record db {
            sessions = rows;
            applications =
                update_where (has_id dst_id) (fill src)
                  (update_where (has_id dst_id) (absorb src) db.applications);
          }))

-- `ApplicationRepo::merge_into`.
pub merge_into : ℕ → ℕ → Db → Result Db
unfolding find_application
merge_into src_id dst_id db =
    if src_id == dst_id
    then err (Error.invariant "merge source and destination are the same application")
    else merge_found src_id dst_id (find_application src_id db.applications) db
