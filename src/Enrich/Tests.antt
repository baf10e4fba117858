-- ===== src/Enrich/Tests.antt =====
-- crates/ludex-enrich: concrete sources, and the theorems at them.
use ludex.Base.{
  List, ◌≡◌, refl, true, false, Option, none, some, [], ◌∷◌, String, length, nat_eq, string_eq,
  ◌==◌, if◌then◌else◌,
}
use ludex.Types.{Application, IdentityUpdate, DetectedVia, launcher_type_beq}
use ludex.Store.Tests.{hades}
use ludex.Enrich.{no_update, Enrichers, merge_into, build_patch}
use ludex.Enrich.Cascade.{answers, LastGiven, build_patch-LastGiven}
use ludex.Enrich.Longest.{Found, max_from}
use ludex.Enrich.Paths.{path_starts_with, join}
use ludex.Enrich.Lutris.{LutrisGame, byte_len, best_match, resolve_identity, curated_battlenet_game}
use ludex.Enrich.Heroic.{HeroicGame, find_by_install_path}
use ludex.Enrich.Pe.{VersionInfo, extract_from_version_info}
use ludex.Enrich.Gog.{Entry, JsonValue, try_parents}
use ludex.Enrich.Desktop.{DesktopEntry, desktop_exec_matches}
use ludex.Enrich.Desktop.{enrich as desktop_enrich}
use ludex.Enrich.Pe.{enrich as pe_enrich}
use ludex.Enrich.Gog.{enrich as gog_enrich}
use ludex.Enrich.Heroic.{enrich as heroic_enrich}
use ludex.Enrich.Lutris.{enrich as lutris_enrich}
use ludex.Enrich.SteamApp.{enrich as steam_enrich}
use ludex.Vdf.{parse_top_level_string}
use ludex.Enrich.System.{World, enrichers}
use ludex.Enrich.Match.{best_match-Found}

abbrev named : String → Application → Option IdentityUpdate
named name app = some (record no_update { product_name = some name })

abbrev published : Application → Option IdentityUpdate
published app = some (record no_update { publisher = some "Supergiant" })

abbrev sources : Enrichers
sources = record {
  desktop = named "hades";
  pe = published;
  gog = λ app. none;
  heroic = λ app. none;
  lutris = named "Hades";
  steam = published;
}

lutris_named : (build_patch sources hades).detected_via ≡ some DetectedVia.lutris
unfolding build_patch merge_into
lutris_named = refl

build_patch-LastGiven_example : LastGiven (answers sources hades) (build_patch sources hades)
build_patch-LastGiven_example = build_patch-LastGiven sources hades

abbrev outer : LutrisGame
outer = record { name = "Battle.net"; directory = "/g/bnet" }

abbrev inner : LutrisGame
inner = record { name = "Solo"; directory = "/g/bnet/solo" }

abbrev epic : HeroicGame
epic = record {
  app_name = "a1";
  title = "Outer";
  developer = none;
  install_path = "/g/bnet";
  executable = some "Game.exe";
}

inner_found : best_match (inner ∷ outer ∷ []) "/g/bnet/solo/Game.exe" ≡ some inner
unfolding best_match max_from
inner_found = refl

sibling_missed : path_starts_with "/g/bnetter/x.exe" "/g/bnet" ≡ false
unfolding path_starts_with
sibling_missed = refl

dots_skipped : path_starts_with "/g/./bnet//x.exe" "/g/bnet/" ≡ true
unfolding path_starts_with
dots_skipped = refl

curated :
    resolve_identity "battle.NET" "/g/bnet/D2R.exe"
    ≡ ("Diablo II: Resurrected", some "Blizzard Entertainment")
unfolding resolve_identity curated_battlenet_game
curated = refl

joined : join "/g/bnet" "Game.exe" ≡ "/g/bnet/Game.exe"
unfolding join
joined = refl

best_match-Found_example :
    Found
      (λ g. path_starts_with "/g/bnet/solo/Game.exe" g.directory)
      (λ g. byte_len g.directory)
      (inner ∷ outer ∷ [])
      (best_match (inner ∷ outer ∷ []) "/g/bnet/solo/Game.exe")
    × Found
        (λ g. path_starts_with "/g/bnet/solo/Game.exe" g.install_path)
        (λ g. byte_len g.install_path)
        (epic ∷ [])
        (find_by_install_path (epic ∷ []) "/g/bnet/solo/Game.exe")
best_match-Found_example = best_match-Found (inner ∷ outer ∷ []) (epic ∷ []) "/g/bnet/solo/Game.exe"

abbrev resource : VersionInfo
resource = record {
  translation =
      record { lang_id = 1031; charset_id = 1200 }
      ∷ record { lang_id = 1033; charset_id = 1200 }
      ∷ [];
  strings = λ lang.
      if lang.lang_id == 1033
      then ("ProductName", "  ") ∷ ("FileDescription", " Hades ") ∷ ("FileVersion", "1.0") ∷ []
      else ("ProductName", "Unreal") ∷ [];
}

description_named :
    extract_from_version_info resource
    ≡ some (record no_update { product_name = some "Hades"; version = some "1.0" })
unfolding extract_from_version_info
description_named = refl

abbrev install : List String → Option (List Entry)
install dir =
    if length dir == 3
    then some (
        record { name = some "readme.txt"; info = none }
        ∷ record {
          name = some "goggame-1.INFO";
          info = some (record { name = some "Dune"; version = some (JsonValue.number "7") });
        }
        ∷ [])
    else some []

parent_searched :
    try_parents install 3 ("/" ∷ "g" ∷ "dune" ∷ "bin" ∷ [])
    ≡ some (record no_update { product_name = some "Dune"; version = some "7" })
unfolding try_parents
parent_searched = refl

abbrev entry : DesktopEntry
entry = record { name = some "Celeste"; exec = some "/usr/bin/celeste %U"; try_exec = none }

link_followed :
    desktop_exec_matches
      (λ path. if path == "/usr/bin/celeste" then some "/opt/celeste" else none)
      (some entry)
      "/opt/celeste"
    ≡ true
unfolding desktop_exec_matches
link_followed = refl

-- The library's game, under Steam, with a manifest and nothing else.
abbrev world : World
world = record {
  canonicalize = λ path. none;
  desktop_dirs = [];
  desktop_files = [];
  pe_files = λ path. none;
  read_dir = λ dir. none;
  heroic_caches = none;
  lutris_games = none;
  steam_manifest = λ appid. some "\"AppState\"\n{\n\t\"name\"\t\t\"Hades II\"\n}\n";
}

manifest_named : (build_patch (enrichers world) hades).product_name ≡ some "Hades II"
unfolding build_patch merge_into desktop_enrich pe_enrich gog_enrich heroic_enrich lutris_enrich
    steam_enrich parse_top_level_string launcher_type_beq
manifest_named = refl
