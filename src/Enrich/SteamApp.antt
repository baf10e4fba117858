-- ===== src/Enrich/SteamApp.antt =====
-- crates/ludex-enrich/src/sources/steam.rs: the source that reads an application's manifest. The manifest of an appid
-- comes from a function; `none` is a file that cannot be read, or no Steam.
use ludex.Base.{Option, none, some, String, if◌then◌else◌}
use ludex.Types.{Application, IdentityUpdate, LauncherType, launcher_type_beq}
use ludex.Vdf.{parse_top_level_string}
use ludex.Enrich.{no_update, ◌>>=◌}

abbrev pub name_update : String → IdentityUpdate
name_update name = record no_update { product_name = some name }

-- `enrich`.
unfoldable pub enrich : (String → Option String) → Application → Option IdentityUpdate
unfolding parse_top_level_string
enrich manifest app =
    if launcher_type_beq app.launcher_type LauncherType.steam
    then (do
      content ← manifest app.launcher_id
      name ← parse_top_level_string content "name"
      some (name_update name))
    else none
