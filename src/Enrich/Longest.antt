-- ===== src/Enrich/Longest.antt =====
-- What crates/ludex-enrich/src/sources/lutris.rs and heroic.rs use of iterators to find a directory: `filter`, then
-- `max_by_key`, which answers the last of the elements with the greatest key.
use ludex.Base.{
  ℕ, ◌≤◌, ◌≡◌, refl, sym, ap, ◌∙◌, ◌⊎◌, inl, inr, Bool, true, false, ◌&&◌, Option, none, some, List,
  [], ◌∷◌, arith, ltb, leb, if◌then◌else◌, where_rows, All, Bool-cases,
}
use mathlib.Core.List.{Memᴰ}
use mathlib.Core.List.Memᴰ
use mathlib.Core.Path.{subst}

module _ {A : Type 0} (key : A → ℕ) where
  unfoldable pub max_from : A → List A → A
  max_from best [] = best
  max_from best (x ∷ xs) = max_from (if leb (key best) (key x) then x else best) xs

  abbrev pub max_by_key : List A → Option A
  max_by_key [] = none
  max_by_key (x ∷ xs) = some (max_from x xs)

-- An element that is found: it stands in the list, passes the test, and none that passes has a greater key.
pub record IsLongest {A : Type 0} (p : A → Bool) (key : A → ℕ) (xs : List A) (best : A)
    : Type 0 where
  pub listed : Memᴰ best xs
  pub passes : p best ≡ true
  pub greatest : All (λ x. (p x && ltb (key best) (key x)) ≡ false) xs

abbrev pub Found : {A : Type 0} → (A → Bool) → (A → ℕ) → List A → Option A → Type 0
Found p key xs none = All (λ x. p x ≡ false) xs
Found p key xs (some best) = IsLongest p key xs best

module _ {A : Type 0} (key : A → ℕ) where
  max_from-choice :
      (best : A) (xs : List A) → (max_from key best xs ≡ best) ⊎ Memᴰ (max_from key best xs) xs
  unfolding max_from
  max_from-choice best [] = inl refl
  max_from-choice best (x ∷ xs) = elim (Bool-cases (leb (key best) (key x))) [
    | inl le ↦ rw le (elim (max_from-choice x xs) [
      | inl same ↦ inr (rw same (Memᴰ.head refl))
      | inr later ↦ inr (Memᴰ.tail later)
    ])
    | inr gt ↦
        rw gt (elim (max_from-choice best xs) [
          | inl same ↦ inl same
          | inr later ↦ inr (Memᴰ.tail later)
        ])
  ]

  max_from-listed : (best : A) (xs : List A) → Memᴰ (max_from key best xs) (best ∷ xs)
  max_from-listed best xs = elim (max_from-choice best xs) [
    | inl same ↦ Memᴰ.head same
    | inr later ↦ Memᴰ.tail later
  ]

  max_from-start : (best : A) (xs : List A) → key best ≤ key (max_from key best xs)
  unfolding max_from
  max_from-start best [] = omega arith
  max_from-start best (x ∷ xs) = ground (arith, max_from-start x xs, max_from-start best xs)

  max_from-takes :
      (best x : A) (xs : List A)
      → leb (key best) (key x) ≡ true
      → max_from key best (x ∷ xs) ≡ max_from key x xs
  unfolding max_from
  max_from-takes best x xs le = rw le refl

  max_from-keeps :
      (best x : A) (xs : List A)
      → leb (key best) (key x) ≡ false
      → max_from key best (x ∷ xs) ≡ max_from key best xs
  unfolding max_from
  max_from-keeps best x xs gt = rw gt refl

  max_from-greatest : (best : A) (xs : List A) → All (λ x. key x ≤ key (max_from key best xs)) xs
  max_from-greatest best [] = tt
  max_from-greatest best (x ∷ xs) = elim (Bool-cases (leb (key best) (key x))) [
    | inl le ↦
        subst (λ m. All (λ y. key y ≤ key m) (x ∷ xs)) (sym (max_from-takes best x xs le))
          (max_from-start x xs, max_from-greatest x xs)
    | inr gt ↦
        subst (λ m. All (λ y. key y ≤ key m) (x ∷ xs)) (sym (max_from-keeps best x xs gt))
          (ground (arith, max_from-start best xs, gt), max_from-greatest best xs)
  ]

module _ {A : Type 0} (p : A → Bool) where
  abbrev kept : Bool → A → List A → List A
  kept b x xs = if b then x ∷ where_rows p xs else where_rows p xs

  where-listed :
      (best : A) (xs : List A) → Memᴰ best (where_rows p xs) → Memᴰ best xs × (p best ≡ true)
  where-listed best [] at = elim at [ ]
  where-listed best (x ∷ xs) at = elim (Bool-cases (p x)) [
    | inl passed ↦ elim (Memᴰ.cases_cons (subst (λ b. Memᴰ best (kept b x xs)) passed at)) [
      | inl e ↦ (Memᴰ.head e, ap p e ∙ passed)
      | inr later ↦ tail_listed (where-listed best xs later)
    ]
    | inr failed ↦
        tail_listed (where-listed best xs (subst (λ b. Memᴰ best (kept b x xs)) failed at))
  ]
    where
      tail_listed : Memᴰ best xs × (p best ≡ true) → Memᴰ best (x ∷ xs) × (p best ≡ true)
      tail_listed (m, e) = (Memᴰ.tail m, e)

  where-none : (xs : List A) → where_rows p xs ≡ [] → All (λ x. p x ≡ false) xs
  where-none [] e = tt
  where-none (x ∷ xs) e = elim (Bool-cases (p x)) [
    | inl passed ↦ ground (arith, e, passed)
    | inr failed ↦ (failed, where-none xs (ground (arith, e, failed)))
  ]

  where-greatest :
      (key : A → ℕ) (best : A) (xs : List A)
      → All (λ x. key x ≤ key best) (where_rows p xs)
      → All (λ x. (p x && ltb (key best) (key x)) ≡ false) xs
  where-greatest key best [] h = tt
  where-greatest key best (x ∷ xs) h = elim (Bool-cases (p x)) [
    | inl passed ↦
        let h' = subst (λ b. All (λ y. key y ≤ key best) (kept b x xs)) passed h in
        (ground (arith, h'.0), where-greatest key best xs h'.1)
    | inr failed ↦ (
      ground (arith, failed),
      where-greatest key best xs (subst (λ b. All (λ y. key y ≤ key best) (kept b x xs)) failed h),
    )
  ]

-- The last of the elements with the greatest key among those that pass the test is found where one passes.
pub max_by_key-Found :
    {A : Type 0} (p : A → Bool) (key : A → ℕ) (xs : List A)
    → Found p key xs (max_by_key key (where_rows p xs))
max_by_key-Found {A} p key xs = found (where_rows p xs) refl
  where
    found : (rows : List A) → where_rows p xs ≡ rows → Found p key xs (max_by_key key rows)
    found [] e = where-none p xs e
    found (best ∷ rows) e =
        let at =
          where-listed p (max_from key best rows) xs (rw e (max_from-listed key best rows)) in
        record {
          listed = at.0;
          passes = at.1;
          greatest =
              where-greatest p key (max_from key best rows) xs
                (rw e (max_from-start key best rows, max_from-greatest key best rows));
        }
