-- ===== src/Enrich/System.antt =====
-- crates/ludex-enrich/src/lib.rs and context.rs: the six sources over what the file system holds.
use ludex.Base.{Option, List, String}
use ludex.Enrich.{Enrichers}
use ludex.Enrich.Desktop.{DesktopDir, DesktopFile}
use ludex.Enrich.Desktop.{enrich as desktop_enrich}
use ludex.Enrich.Pe.{PeFile}
use ludex.Enrich.Pe.{enrich as pe_enrich}
use ludex.Enrich.Gog.{Entry}
use ludex.Enrich.Gog.{enrich as gog_enrich}
use ludex.Enrich.Heroic.{Library}
use ludex.Enrich.Heroic.{enrich as heroic_enrich}
use ludex.Enrich.Lutris.{LutrisGame}
use ludex.Enrich.Lutris.{enrich as lutris_enrich}
use ludex.Enrich.SteamApp.{enrich as steam_enrich}

-- What stands at the paths of an `EnrichmentContext`, as the parsers of other packages read it.
pub record World : Type 0 where
  pub canonicalize : String → Option String
  pub desktop_dirs : List DesktopDir
  pub desktop_files : List (List DesktopFile)
  pub pe_files : String → Option PeFile
  pub read_dir : List String → Option (List Entry)
  pub heroic_caches : Option (List Library)
  pub lutris_games : Option (List LutrisGame)
  pub steam_manifest : String → Option String

-- The sources that `build_patch` calls.
abbrev pub enrichers : World → Enrichers
enrichers w = record {
  desktop = desktop_enrich w.canonicalize w.desktop_dirs w.desktop_files;
  pe = pe_enrich w.pe_files;
  gog = gog_enrich w.read_dir;
  heroic = heroic_enrich w.heroic_caches;
  lutris = lutris_enrich w.lutris_games;
  steam = steam_enrich w.steam_manifest;
}
