-- ===== src/Enrich.antt =====
-- crates/ludex-enrich/src/merge.rs and lib.rs: the cascade of the sources of metadata. The six sources come as a record
-- of functions, which modules below fill.
pub mod Longest
pub mod Paths
pub mod Lutris
pub mod Heroic
pub mod SteamApp
pub mod Pe
pub mod Gog
pub mod Desktop
pub mod System
pub mod Match
pub mod Cascade
mod Tests
use ludex.Base.{ℕ, Bool, true, false, ◌&&◌, Option, none, some, is_none, if◌then◌else◌}
use ludex.Types.{Application, Icons, IdentityUpdate, DetectedVia}
use ludex.Store.{Db}
use ludex.Store.Edits.{coalesce, find_application, update_identity}

-- `?` of an `Option`.
infixl 5 ◌>>=◌
abbrev pub ◌>>=◌ {ℓ κ} : {A : Type ℓ} {B : Type κ} → Option A → (A → Option B) → Option B
none >>= next = none
some a >>= next = next a

-- `IdentityUpdate::default()`.
abbrev pub no_update : IdentityUpdate
no_update = record {
  product_name = none;
  publisher = none;
  version = none;
  executable_path = none;
  launcher_exe_path = none;
  wineprefix_path = none;
  installed_flatpak_ref = none;
  graphics_platform = none;
  process_architecture = none;
  group_id = none;
  detected_via = none;
  icons = record { icon_16 = none; icon_32 = none; icon_48 = none; icon_256 = none };
}

abbrev pub merge_icons : Icons → Icons → Icons
merge_icons acc patch = record {
  icon_16 = coalesce patch.icon_16 acc.icon_16;
  icon_32 = coalesce patch.icon_32 acc.icon_32;
  icon_48 = coalesce patch.icon_48 acc.icon_48;
  icon_256 = coalesce patch.icon_256 acc.icon_256;
}

-- The source that named the accumulator, after one more patch.
abbrev pub provenance {ℓ} :
    {A : Type ℓ} → Option A → DetectedVia → Option DetectedVia → Option DetectedVia
provenance none source old = old
provenance (some name) source old = some source

-- `merge_into`.
unfoldable pub merge_into : IdentityUpdate → DetectedVia → Option IdentityUpdate → IdentityUpdate
merge_into acc source none = acc
merge_into acc source (some patch) = record {
  product_name = coalesce patch.product_name acc.product_name;
  publisher = coalesce patch.publisher acc.publisher;
  version = coalesce patch.version acc.version;
  executable_path = coalesce patch.executable_path acc.executable_path;
  launcher_exe_path = coalesce patch.launcher_exe_path acc.launcher_exe_path;
  wineprefix_path = coalesce patch.wineprefix_path acc.wineprefix_path;
  installed_flatpak_ref = coalesce patch.installed_flatpak_ref acc.installed_flatpak_ref;
  graphics_platform = coalesce patch.graphics_platform acc.graphics_platform;
  process_architecture = coalesce patch.process_architecture acc.process_architecture;
  group_id = coalesce patch.group_id acc.group_id;
  detected_via = provenance patch.product_name source acc.detected_via;
  icons = merge_icons acc.icons patch.icons;
}

-- `is_empty`, which does not ask for the provenance.
unfoldable pub is_empty : IdentityUpdate → Bool
is_empty patch =
    is_none patch.product_name
    && is_none patch.publisher
    && is_none patch.version
    && is_none patch.executable_path
    && is_none patch.launcher_exe_path
    && is_none patch.wineprefix_path
    && is_none patch.installed_flatpak_ref
    && is_none patch.graphics_platform
    && is_none patch.process_architecture
    && is_none patch.group_id
    && is_none patch.icons.icon_16
    && is_none patch.icons.icon_32
    && is_none patch.icons.icon_48
    && is_none patch.icons.icon_256

-- What each source answers for an application; an error of a source is `none`.
pub record Enrichers : Type 0 where
  pub desktop : Application → Option IdentityUpdate
  pub pe : Application → Option IdentityUpdate
  pub gog : Application → Option IdentityUpdate
  pub heroic : Application → Option IdentityUpdate
  pub lutris : Application → Option IdentityUpdate
  pub steam : Application → Option IdentityUpdate

-- `build_patch`.
unfoldable pub build_patch : Enrichers → Application → IdentityUpdate
unfolding merge_into
build_patch sources app =
    let acc = merge_into no_update DetectedVia.desktop (sources.desktop app) in
    let acc = merge_into acc DetectedVia.pe (sources.pe app) in
    let acc = merge_into acc DetectedVia.gog (sources.gog app) in
    let acc = merge_into acc DetectedVia.heroic (sources.heroic app) in
    let acc = merge_into acc DetectedVia.lutris (sources.lutris app) in
    merge_into acc DetectedVia.steam (sources.steam app)

abbrev pub unless_empty : ℕ → IdentityUpdate → Db → Db
unless_empty id patch db = if is_empty patch then db else update_identity id patch db

abbrev pub cascade_found : Enrichers → ℕ → Option Application → Db → Db
cascade_found sources id none db = db
cascade_found sources id (some app) db = unless_empty id (build_patch sources app) db

-- `run_cascade`.
pub run_cascade : Enrichers → ℕ → Db → Db
unfolding find_application build_patch is_empty
run_cascade sources id db = cascade_found sources id (find_application id db.applications) db
