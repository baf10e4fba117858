-- ===== src/Vdf/RoundTrip.antt =====
-- crates/ludex-core/src/vdf.rs: what the parser reads of a document in the form that Steam writes.
use ludex.Base.{
  ◌≡◌, refl, sym, ap, ap₂, ◌∙◌, true, none, some, List, [], ◌∷◌, map, String, arith, if◌then◌else◌,
  Bool-cases, inl, inr, All, ◌==◌, string_eq, where_rows,
}
use Prim.Native.Char.{Char, char}
use ludex.Text.{trim_start}
use ludex.Text.Search.{◌+++◌, strip_prefix, lines, chomp}
use ludex.Text.Search.Laws.{
  lacks, split_once-append, split_inclusive-append, append_assoc, chomp-line, lacks-append,
  text_beq, text_beq_lem,
}
use ludex.Vdf.{line_value, parse_all_values, needle, filter_map, closed}

-- A pair as Steam writes it, at one level of nesting.
abbrev pub Pair : Type 0
Pair = String × String

unfoldable pub written_line : Pair → String
unfolding ◌+++◌
written_line (key, value) = "\t\"" +++ key +++ "\"\t\t\"" +++ value +++ "\""

unfoldable pub written : List Pair → String
unfolding written_line ◌+++◌
written [] = ""
written (p ∷ pairs) = written_line p +++ "\n" +++ written pairs

-- Neither text of the pair holds a quote or a line end.
abbrev pub IsPlain : Pair → Type 0
IsPlain (key, value) =
    (lacks b'"' key ≡ true)
    × (lacks b'"' value ≡ true)
    × (lacks b'\n' key ≡ true)
    × (lacks b'\n' value ≡ true)

abbrev quote : Char
quote = char b'"' tt

abbrev newline : Char
newline = char b'\n' tt

-- A quoted key is matched by the needle of the same key, and of no other.
needle-other :
    (key other s : String)
    → lacks b'"' key ≡ true
    → lacks b'"' other ≡ true
    → strip_prefix (key +++ "\"") (other +++ "\"" +++ s)
      ≡ (if text_beq other key then some s else none)
unfolding strip_prefix ◌+++◌ lacks text_beq
needle-other String.[] String.[] s h k = refl
needle-other String.[] (String.◌∷◌ d other) s h k = ground (arith, k)
needle-other (String.◌∷◌ c key) String.[] s h k = ground (arith, h)
needle-other (String.◌∷◌ c key) (String.◌∷◌ d other) s h k =
    ground (arith, needle-other key other s)

line_value-written :
    (key other value : String)
    → lacks b'"' key ≡ true
    → lacks b'"' other ≡ true
    → lacks b'"' value ≡ true
    → line_value key (written_line (other, value)) ≡ (if other == key then some value else none)
unfolding line_value written_line trim_start needle
line_value-written key other value h k l =
    rw (needle-other key other ("\t\t\"" +++ value +++ "\"") h k, text_beq_lem other key)
      (elim (Bool-cases (other == key)) [
        | inl e ↦ rw e (ap closed (split_once-append b'"' value "" quote refl l))
        | inr e ↦ rw e refl
      ])

-- A line up to its last quote.
unfoldable body : Pair → String
unfolding ◌+++◌
body (key, value) = "\t\"" +++ key +++ "\"\t\t\"" +++ value

written_line-body : (p : Pair) → written_line p ≡ body p +++ "\""
unfolding written_line body ◌+++◌
written_line-body (key, value) = sym (
    ap (λ t. "\t\"" +++ t)
      (append_assoc key ("\"\t\t\"" +++ value) "\""
        ∙ ap (λ t. key +++ t) (append_assoc "\"\t\t\"" value "\"")))

lacks-body : (p : Pair) → IsPlain p → lacks b'\n' (body p) ≡ true
unfolding body lacks ◌+++◌
lacks-body (key, value) (_, _, h, k) = ground (
  arith,
  lacks-append b'\n' key ("\"\t\t\"" +++ value),
  lacks-append b'\n' "\"\t\t\"" value,
  h,
  k,
)

lacks-written_line : (p : Pair) → IsPlain p → lacks b'\n' (written_line p) ≡ true
lacks-written_line p h =
    ap (lacks b'\n') (written_line-body p)
    ∙ lacks-append b'\n' (body p) "\""
    ∙ rw (lacks-body p h) (unfold lacks in refl)

chomp-written_line : (p : Pair) → chomp (written_line p +++ "\n") ≡ written_line p
chomp-written_line p =
    ap (λ t. chomp (t +++ "\n")) (written_line-body p)
    ∙ ap chomp (append_assoc (body p) "\"" "\n")
    ∙ unfold ◌+++◌ in chomp-line (body p) quote newline refl refl refl ∙ sym (written_line-body p)

-- The lines of a written document are the lines written.
lines-written :
    (pairs : List Pair) → All IsPlain pairs → lines (written pairs) ≡ map written_line pairs
unfolding lines written
lines-written [] h = refl
lines-written (p ∷ pairs) h =
    ap (map chomp) (
      split_inclusive-append b'\n' (written_line p) (written pairs) newline refl
        (lacks-written_line p h.0))
    ∙ ap₂ ◌∷◌ (chomp-written_line p) (lines-written pairs h.1)

-- Reading a key back: of a document of pairs without quotes and line ends in their texts, the parser
-- returns the values of that key, all and in their order.
pub parse_all_values-written :
    (key : String) (pairs : List Pair)
    → lacks b'"' key ≡ true
    → All IsPlain pairs
    → parse_all_values (written pairs) key
      ≡ map (λ (p : Pair). p.1) (where_rows (λ (p : Pair). p.0 == key) pairs)
unfolding parse_all_values
parse_all_values-written key pairs h plain = rw (lines-written pairs plain) (values pairs plain)
  where
    values :
        (pairs : List Pair)
        → All IsPlain pairs
        → filter_map (line_value key) (map written_line pairs)
          ≡ map (λ (p : Pair). p.1) (where_rows (λ (p : Pair). p.0 == key) pairs)
    values [] plain = refl
    values ((other, value) ∷ pairs) (p, plain) =
        rw (line_value-written key other value h p.0 p.1) (elim (Bool-cases (other == key)) [
          | inl e ↦ rw e (ap (◌∷◌ value) (values pairs plain))
          | inr e ↦ rw e (values pairs plain)
        ])
