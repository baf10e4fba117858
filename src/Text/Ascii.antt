-- ===== src/Text/Ascii.antt =====
-- A decoder of ASCII, for tests: it stands where the sources take `std::str::from_utf8`.
use Prim.Native.Nat.{compare, Ordering}
use Prim.Native.Char.{Char, char, code}
use ludex.Base.{ℕ, ◌≡◌, refl, Option, none, some, List, [], ◌∷◌, String, ltb, if◌then◌else◌}

abbrev pub as_char : (n : ℕ) (o : Ordering) → compare n 55296 ≡ o → Option Char
as_char n Ordering.lt e = some (char n (rw e tt))
as_char n _ e = none

abbrev pub cons_char : Option Char → Option String → Option String
cons_char none s = none
cons_char (some c) none = none
cons_char (some c) (some s) = some (String.◌∷◌ c s)

unfoldable pub ascii : List ℕ → Option String
ascii [] = some ""
ascii (b ∷ bytes) =
    cons_char (if ltb b 128 then as_char b (compare b 55296) refl else none) (ascii bytes)

unfoldable pub encoded : String → List ℕ
encoded String.[] = []
encoded (String.◌∷◌ c s) = code c ∷ encoded s
