-- ===== src/Tracker/Blocking.antt =====
-- crates/ludex-core/src/repo/blocked.rs: the rows and the set in memory after a change.
use ludex.Base.{
  ℕ, ◌≡◌, refl, not, ◌||◌, ◌&&◌, List, [], ◌∷◌, arith, ◌==◌, string_eq, inl, inr, Bool-cases,
}
use ludex.Base.Table.{contains, contains_key, lookup, lookup-remove}
use ludex.Types.{GameKey, key_eq, key_beq_iff}
use ludex.Tracker.{Blocked, list_blocked, insert_blocked, remove_blocked, include, exclude}

pub contains-include :
    (key other : GameKey) (set : List GameKey)
    → contains (include key set) other ≡ (key == other || contains set other)
unfolding contains
contains-include key other set = elim (Bool-cases (contains set key)) [
  | inl there ↦ rw there (ground (arith, there, key_beq_iff key other))
  | inr new ↦ rw new refl
]

pub contains-exclude :
    (key other : GameKey) (set : List GameKey)
    → contains (exclude key set) other ≡ (not (key == other) && contains set other)
unfolding contains
contains-exclude key other [] = ground arith
contains-exclude key other (k ∷ set) = ground (
  arith,
  contains-exclude key other set,
  key_beq_iff k key,
  key_beq_iff k other,
  key_beq_iff key other,
)

pub inserted-contains :
    (key other : GameKey) (at : ℕ) (rows : Blocked)
    → contains_key other (insert_blocked key at rows).1 ≡ (key == other || contains_key other rows)
unfolding insert_blocked contains_key lookup
inserted-contains key other at rows = elim (Bool-cases (contains_key key rows)) [
  | inl there ↦ rw there (ground (arith, there, key_beq_iff key other))
  | inr new ↦ rw new (ground (arith, key_beq_iff key other))
]

pub removed-contains :
    (key other : GameKey) (rows : Blocked)
    → contains_key other (remove_blocked key rows).1
      ≡ (not (key == other) && contains_key other rows)
unfolding remove_blocked contains_key
removed-contains key other rows = ground (arith, lookup-remove key other rows)

pub listed-contains :
    (key : GameKey) (rows : Blocked) → contains (list_blocked rows) key ≡ contains_key key rows
unfolding list_blocked contains contains_key lookup
listed-contains key [] = refl
listed-contains key ((k, at) ∷ rows) = ground (arith, listed-contains key rows)
