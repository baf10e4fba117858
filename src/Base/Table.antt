-- ===== src/Base/Table.antt =====
-- A `HashMap` as an association list, and a `HashSet` as a list of its members.
use mathlib.Core.Path.{◌≡◌, refl}
use mathlib.Core.Bool.{Bool, false, ◌||◌}
use mathlib.Core.Option.{Option, none, some}
use mathlib.Core.List.{List, [], ◌∷◌}
use mathlib.Core.Logic.{inl, inr}
use native.Mathlib.Omega.{arith}
use ludex.Base.Lists.{All, All-map}
use ludex.Base.Tests.{Eq, ◌==◌, if◌then◌else◌, is_some, Bool-cases, beq-eq_true}

abbrev pub Table {ℓ κ} : Type ℓ → Type κ → Type (ℓ ⊔ κ)
Table K V = List (K × V)

module _ {ℓ κ} {K : Type ℓ} {V : Type κ} ⦃e : Eq K⦄ where
  unfoldable pub lookup : K → Table K V → Option V
  lookup key [] = none
  lookup key ((at, value) ∷ table) = if at == key then some value else lookup key table

  unfoldable pub contains_key : K → Table K V → Bool
  contains_key key table = is_some (lookup key table)

  unfoldable pub remove : K → Table K V → Table K V
  remove key [] = []
  remove key ((at, value) ∷ table) =
      if at == key then remove key table else (at, value) ∷ remove key table

  pub lookup-remove :
      (key other : K) (table : Table K V)
      → lookup other (remove key table) ≡ (if key == other then none else lookup other table)
  unfolding lookup remove
  lookup-remove key other [] = ground arith
  lookup-remove key other ((at, value) ∷ table) = ground (
    arith,
    lookup-remove key other table,
    e.beq_iff key other,
    e.beq_iff at key,
    e.beq_iff at other,
  )

  unfoldable pub insert : K → V → Table K V → Table K V
  insert key value [] = (key, value) ∷ []
  insert key value ((at, old) ∷ table) =
      if at == key then (key, value) ∷ table else (at, old) ∷ insert key value table

  pub lookup-insert :
      (key other : K) (value : V) (table : Table K V)
      → lookup other (insert key value table)
        ≡ (if key == other then some value else lookup other table)
  unfolding lookup insert
  lookup-insert key other value [] = refl
  lookup-insert key other value ((at, old) ∷ table) = ground (
    arith,
    lookup-insert key other value table,
    e.beq_iff key other,
    e.beq_iff at key,
    e.beq_iff at other,
  )

  pub contains_key-none : (k : K) (m : Table K V) → contains_key k m ≡ false → lookup k m ≡ none
  unfolding contains_key
  contains_key-none k m h = ground arith

  -- Each key stands once.
  abbrev pub Unique : Table K V → Type (ℓ ⊔ κ)
  Unique [] = Unit
  Unique ((k, v) ∷ m) = (lookup k m ≡ none) × Unique m

  pub insert-Unique : (k : K) (v : V) (m : Table K V) → Unique m → Unique (insert k v m)
  unfolding insert lookup
  insert-Unique k v [] u = (refl, tt)
  insert-Unique k v ((j, w) ∷ m) u = elim (Bool-cases (j == k)) [
    | inl same ↦ rw same (rw (← beq-eq_true j k same) u)
    | inr other ↦ rw other (
      ground (arith, lookup-insert k j v m, e.beq_iff k j, e.beq_iff j k, u.0),
      insert-Unique k v m u.1,
    )
  ]

  pub remove-Unique : (k : K) (m : Table K V) → Unique m → Unique (remove k m)
  unfolding remove
  remove-Unique k [] u = tt
  remove-Unique k ((j, w) ∷ m) u = elim (Bool-cases (j == k)) [
    | inl same ↦ rw same (remove-Unique k m u.1)
    | inr other ↦ rw other (ground (arith, lookup-remove k j m, u.0), remove-Unique k m u.1)
  ]

  pub lookup-cons :
      (k j : K) (v w : V) (m : Table K V)
      → lookup k m ≡ none
      → lookup j m ≡ some w
      → lookup j ((k, v) ∷ m) ≡ some w
  unfolding lookup
  lookup-cons k j v w m missing h = ground (arith, e.beq_iff k j, missing, h)

  -- So every entry is what its key looks up.
  pub Unique-lookup : (m : Table K V) → Unique m → All (λ entry. lookup entry.0 m ≡ some entry.1) m
  unfolding lookup
  Unique-lookup [] u = tt
  Unique-lookup ((k, v) ∷ m) u = (
    ground (arith, e.beq_iff k k),
    All-map (λ entry. lookup entry.0 m ≡ some entry.1)
        (λ entry. lookup entry.0 ((k, v) ∷ m) ≡ some entry.1) m
        (λ entry h. lookup-cons k entry.0 v entry.1 m u.0 h) (Unique-lookup m u.1),
  )

module _ {ℓ} {A : Type ℓ} ⦃e : Eq A⦄ where
  unfoldable pub contains : List A → A → Bool
  contains [] a = false
  contains (x ∷ xs) a = x == a || contains xs a
