-- ===== src/Proc/Environ.antt =====
-- crates/ludex-daemon/src/proc/environ.rs: the environment of a process from its bytes. The decoder of UTF-8 is a
-- parameter.
pub mod RoundTrip
use ludex.Base.{
  ℕ, Bool, true, false, Option, none, some, List, [], ◌∷◌, String, Eq, string_eq, nat_beq,
  if◌then◌else◌,
}
use ludex.Base.Table.{Table, insert}

-- The parts between the bytes that are a separator: one part more than separators.
abbrev pub cons_byte : ℕ → List (List ℕ) → List (List ℕ)
cons_byte b [] = (b ∷ []) ∷ []
cons_byte b (part ∷ parts) = (b ∷ part) ∷ parts

unfoldable pub split_bytes : ℕ → List ℕ → List (List ℕ)
split_bytes sep [] = [] ∷ []
split_bytes sep (b ∷ bytes) =
    let parts = split_bytes sep bytes in if nat_beq b sep then [] ∷ parts else cons_byte b parts

abbrev pub before_byte : ℕ → Option (List ℕ × List ℕ) → Option (List ℕ × List ℕ)
before_byte b none = none
before_byte b (some (head, tail)) = some (b ∷ head, tail)

-- The bytes before and behind the first that is a separator.
unfoldable pub cut_bytes : ℕ → List ℕ → Option (List ℕ × List ℕ)
cut_bytes sep [] = none
cut_bytes sep (b ∷ bytes) =
    let later = cut_bytes sep bytes in
    if nat_beq b sep then some ([], bytes) else before_byte b later

abbrev pub both {ℓ κ} : {A : Type ℓ} {B : Type κ} → Option A → Option B → Option (A × B)
both none b = none
both (some a) none = none
both (some a) (some b) = some (a, b)

unfoldable pub insert_found : Option (String × String) → Table String String → Table String String
unfolding insert
insert_found none env = env
insert_found (some (key, value)) env = insert key value env

module _ (from_utf8 : List ℕ → Option String) where
  abbrev pub decoded : Option (List ℕ × List ℕ) → Option (String × String)
  decoded none = none
  decoded (some (key, value)) = both (from_utf8 key) (from_utf8 value)

  -- The closure of `parse`; an empty entry has no `=`.
  unfoldable pub entry_of : List ℕ → Option (String × String)
  unfolding cut_bytes
  entry_of entry = decoded (cut_bytes b'=' entry)

  unfoldable pub collect : List (List ℕ) → Table String String → Table String String
  unfolding insert_found entry_of
  collect [] env = env
  collect (entry ∷ entries) env = collect entries (insert_found (entry_of entry) env)

  -- `parse`: a later entry replaces an earlier one of the same key.
  unfoldable pub parse : List ℕ → Table String String
  unfolding split_bytes collect
  parse content = collect (split_bytes 0 content) []
