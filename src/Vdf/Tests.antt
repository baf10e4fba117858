-- ===== src/Vdf/Tests.antt =====
-- Values of a manifest.
use ludex.Base.{map, ◌==◌, string_eq, where_rows, ◌≡◌, refl, some, List, [], ◌∷◌, String}
use ludex.Text.Search.Laws.{lacks}
use ludex.Vdf.RoundTrip.{Pair, written, parse_all_values-written}
use ludex.Vdf.{parse_top_level_string, parse_top_level_u64, parse_all_values}

abbrev manifest : String
manifest =
    "\"AppState\"\n{\n\t\"appid\"\t\t\"440\"\n\t\"name\"\t\t\"Team Fortress 2\"\r\n\t\"StateFlags\"\t\t\"68\"\n}"

name : parse_top_level_string manifest "name" ≡ some "Team Fortress 2"
unfolding parse_top_level_string
name = refl

flags : parse_top_level_u64 manifest "StateFlags" ≡ some 68
unfolding parse_top_level_u64
flags = refl

abbrev depots : List Pair
depots = ("name", "Portal") ∷ ("manifest", "7") ∷ ("name", "Portal 2") ∷ []

parse_all_values-written_example :
    parse_all_values (written depots) "name"
    ≡ map (λ (p : Pair). p.1) (where_rows (λ (p : Pair). p.0 == "name") depots)
unfolding lacks
parse_all_values-written_example =
    parse_all_values-written "name" depots refl
      ((refl, refl, refl, refl), ((refl, refl, refl, refl), ((refl, refl, refl, refl), tt)))

two_read : parse_all_values (written depots) "name" ≡ "Portal" ∷ "Portal 2" ∷ []
unfolding parse_all_values written
two_read = refl
