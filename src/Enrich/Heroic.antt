-- ===== src/Enrich/Heroic.antt =====
-- crates/ludex-enrich/src/sources/heroic.rs: the source that reads Heroic's library caches. What serde makes of each
-- file comes as an argument.
use ludex.Base.{
  Bool, not, Option, none, some, List, [], ◌∷◌, ◌++◌, String, ◌==◌, string_eq, if◌then◌else◌,
  where_rows,
}
use ludex.Types.{Application, IdentityUpdate, LauncherType}
use ludex.Text.{trim, is_empty}
use ludex.Vdf.{filter_map}
use ludex.Enrich.{no_update, ◌>>=◌}
use ludex.Enrich.Longest.{max_by_key}
use ludex.Enrich.Paths.{path_starts_with, join}
use ludex.Enrich.Lutris.{byte_len}

pub record InstallInfo : Type 0 where
  pub install_path : Option String
  pub executable : Option String

pub record GameEntry : Type 0 where
  pub app_name : Option String
  pub title : Option String
  pub developer : Option String
  pub is_installed : Bool
  pub install : Option InstallInfo

pub record HeroicGame : Type 0 where
  pub app_name : String
  pub title : String
  pub developer : Option String
  pub install_path : String
  pub executable : Option String

-- `filter(|s| !s.trim().is_empty())`.
unfoldable pub filled : Option String → Option String
unfolding trim
filled none = none
filled (some s) = if is_empty (trim s) then none else some s

-- The closure of `read_one_library`.
unfoldable pub installed_game : GameEntry → Option HeroicGame
unfolding filled
installed_game g = if not g.is_installed then none else (do
  app_name ← filled g.app_name
  install ← g.install
  install_path ← filled install.install_path
  title ← filled g.title
  some (record {
    app_name = app_name;
    title = title;
    developer = filled g.developer;
    install_path = install_path;
    executable = filled install.executable;
  }))

-- A library cache; `none` is one that is missing, cannot be read, or cannot be parsed.
abbrev pub Library : Type 0
Library = Option (List GameEntry)

-- `read_one_library`.
unfoldable pub read_one_library : Library → List HeroicGame
unfolding installed_game filter_map
read_one_library none = []
read_one_library (some entries) = filter_map installed_game entries

-- `read_libraries`.
unfoldable pub read_libraries : List Library → List HeroicGame
unfolding read_one_library
read_libraries [] = []
read_libraries (library ∷ libraries) = read_one_library library ++ read_libraries libraries

-- `find_by_app_name`.
unfoldable pub find_by_app_name : List HeroicGame → String → Option HeroicGame
find_by_app_name [] app_name = none
find_by_app_name (g ∷ games) app_name =
    if g.app_name == app_name then some g else find_by_app_name games app_name

-- `find_by_install_path`.
unfoldable pub find_by_install_path : List HeroicGame → String → Option HeroicGame
unfolding path_starts_with byte_len
find_by_install_path games exe_path =
    max_by_key (λ g. byte_len g.install_path)
      (where_rows (λ g. path_starts_with exe_path g.install_path) games)

-- `real_executable_path`.
unfoldable pub real_executable_path : HeroicGame → Option String
unfolding trim join
real_executable_path game = joined game.executable
  where
    joined : Option String → Option String
    joined none = none
    joined (some exe) =
        if is_empty (trim exe) then none else some (join game.install_path (trim exe))

abbrev pub heroic_match : List HeroicGame → LauncherType → Application → Option HeroicGame
heroic_match [] launcher_type app = none
heroic_match games LauncherType.heroic app = find_by_app_name games app.launcher_id
heroic_match games LauncherType.native app = do
  exe ← app.executable_path
  find_by_install_path games exe
heroic_match games launcher_type app = none

abbrev pub heroic_update : HeroicGame → IdentityUpdate
heroic_update g = record no_update {
  product_name = some g.title;
  publisher = g.developer;
  executable_path = real_executable_path g;
}

-- `enrich`, for the caches of the three runners.
unfoldable pub enrich : Option (List Library) → Application → Option IdentityUpdate
unfolding read_libraries find_by_app_name find_by_install_path real_executable_path
enrich caches app = do
  libraries ← caches
  matched ← heroic_match (read_libraries libraries) app.launcher_type app
  some (heroic_update matched)
