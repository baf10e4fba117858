-- ===== src/Enrich/Lutris.antt =====
-- crates/ludex-enrich/src/sources/lutris.rs: the source that reads Lutris's database. The rows of its query come as an
-- argument.

use ludex.Base.{
  ℕ, ◌+◌, Bool, true, false, ◌&&◌, Option, none, some, List, where_rows, nat_eq, [], ◌∷◌, String,
  ◌==◌, string_eq, leb, if◌then◌else◌,
}
use Prim.Native.Char.{code}
use ludex.Types.{Application, IdentityUpdate}
use ludex.Text.{file_name}
use ludex.Enrich.{no_update, ◌>>=◌}
use ludex.Enrich.Paths.{path_starts_with}
use ludex.Enrich.Longest.{max_by_key}
use Prim.Native.Char.{len_utf8}

pub record LutrisGame : Type 0 where
  pub name : String
  pub directory : String

-- `str::len`, in bytes.
unfoldable pub byte_len : String → ℕ
byte_len String.[] = 0
byte_len (String.◌∷◌ c s) = len_utf8 c + byte_len s

-- `best_match`.
unfoldable pub best_match : List LutrisGame → String → Option LutrisGame
unfolding path_starts_with byte_len
best_match games exe_path =
    max_by_key (λ g. byte_len g.directory)
      (where_rows (λ g. path_starts_with exe_path g.directory) games)

-- `to_ascii_lowercase`, of a code point.
abbrev pub lower : ℕ → ℕ
lower c = if leb b'A' c && leb c b'Z' then c + 32 else c

-- `eq_ignore_ascii_case`, and the comparison of a text in lower case with a pattern that is in lower case.
unfoldable pub same_ignoring_case : String → String → Bool
same_ignoring_case String.[] String.[] = true
same_ignoring_case String.[] (String.◌∷◌ d t) = false
same_ignoring_case (String.◌∷◌ c s) String.[] = false
same_ignoring_case (String.◌∷◌ c s) (String.◌∷◌ d t) =
    lower (code c) == lower (code d) && same_ignoring_case s t

abbrev pub curated_titles : List (String × String)
curated_titles =
    ("wow.exe", "World of Warcraft")
    ∷ ("wowclassic.exe", "World of Warcraft")
    ∷ ("diablo iv.exe", "Diablo IV")
    ∷ ("diablo iii.exe", "Diablo III")
    ∷ ("diablo iii64.exe", "Diablo III")
    ∷ ("diablo ii resurrected.exe", "Diablo II: Resurrected")
    ∷ ("d2r.exe", "Diablo II: Resurrected")
    ∷ ("overwatch.exe", "Overwatch 2")
    ∷ ("hearthstone.exe", "Hearthstone")
    ∷ ("starcraft.exe", "StarCraft: Remastered")
    ∷ ("starcraft ii.exe", "StarCraft II")
    ∷ ("sc2.exe", "StarCraft II")
    ∷ ("sc2_x64.exe", "StarCraft II")
    ∷ ("heroes of the storm.exe", "Heroes of the Storm")
    ∷ ("heroesofthestorm_x64.exe", "Heroes of the Storm")
    ∷ ("warcraft iii.exe", "Warcraft III: Reforged")
    ∷ ("wc3.exe", "Warcraft III: Reforged")
    ∷ []

unfoldable pub title_in : String → List (String × String) → Option String
unfolding same_ignoring_case
title_in basename [] = none
title_in basename ((key, title) ∷ titles) =
    if same_ignoring_case key basename then some title else title_in basename titles

-- `curated_battlenet_game`.
unfoldable pub curated_battlenet_game : String → Option String
unfolding title_in
curated_battlenet_game basename = title_in basename curated_titles

abbrev pub curated_or : String → Option String → String × Option String
curated_or lutris_name none = (lutris_name, none)
curated_or lutris_name (some curated) = (curated, some "Blizzard Entertainment")

abbrev pub curated_name : Option String → Option String
curated_name none = none
curated_name (some basename) = curated_battlenet_game basename

-- `resolve_identity`.
unfoldable pub resolve_identity : String → String → String × Option String
unfolding file_name same_ignoring_case
resolve_identity lutris_name exe_path =
    if same_ignoring_case lutris_name "Battle.net"
    then curated_or lutris_name (curated_name (file_name exe_path))
    else (lutris_name, none)

abbrev pub lutris_update : String × Option String → IdentityUpdate
lutris_update (name, publisher) = record no_update {
  product_name = some name;
  publisher = publisher;
}

-- `enrich`: `none` for the rows is a database that is not there or cannot be read.
unfoldable pub enrich : Option (List LutrisGame) → Application → Option IdentityUpdate
unfolding best_match resolve_identity
enrich rows app = do
  games ← rows
  exe ← app.executable_path
  matched ← best_match games exe
  some (lutris_update (resolve_identity matched.name exe))
