-- ===== src/Enrich/Match.antt =====
-- crates/ludex-enrich/src/sources/lutris.rs and heroic.rs: the game that an executable's path belongs to.
use ludex.Base.{List, String}
use ludex.Enrich.Longest.{Found, max_by_key-Found}
use ludex.Enrich.Paths.{path_starts_with}
use ludex.Enrich.Lutris.{LutrisGame, best_match, byte_len}
use ludex.Enrich.Heroic.{HeroicGame, find_by_install_path}

-- Of Lutris's rows and of Heroic's games, the one found for an executable is listed, has a directory that is a prefix
-- of its path by whole components, and no other such directory is longer; where none is found, no directory is a
-- prefix.
pub best_match-Found :
    (games : List LutrisGame) (heroic_games : List HeroicGame) (exe_path : String)
    → Found
        (λ g. path_starts_with exe_path g.directory)
        (λ g. byte_len g.directory)
        games
        (best_match games exe_path)
      × Found
          (λ g. path_starts_with exe_path g.install_path)
          (λ g. byte_len g.install_path)
          heroic_games
          (find_by_install_path heroic_games exe_path)
unfolding best_match find_by_install_path
best_match-Found games heroic_games exe_path = (
  max_by_key-Found (λ g. path_starts_with exe_path g.directory) (λ g. byte_len g.directory) games,
  max_by_key-Found (λ g. path_starts_with exe_path g.install_path) (λ g. byte_len g.install_path)
      heroic_games,
)
