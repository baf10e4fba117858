-- ===== src/SessionMerge/Totals.antt =====
-- What the fold of session_merge.rs keeps (row ids, runtimes), and that folding twice is folding
-- once.
use mathlib.Core.List.{flat_map, map-append, map-map}
use ludex.Base.{
  ℕ, ◌+◌, ◌≤◌, ◌≡◌, refl, sym, ap, ◌∙◌, inl, inr, List, [], ◌∷◌, ◌++◌, map, foldl, arith,
  Bool-cases, sum_of, sum_of-append, saturating_add, saturating_add_lem, i64_max,
}
use ludex.SessionMerge.{Row, Span, mergeable, fold}
use ludex.SessionMerge.Runs.{
  MergeLaws, runs_after, runs, summarise, fold-runs, mergeable-Agree, merge-Agree, mergeable-congr,
}

module _ {T : Type 0} (r : Row T) (gap : ℕ) where
  -- The rows of a run.
  abbrev run_rows : T × List T → List T
  run_rows (x, more) = x ∷ more

  runs_after-concat :
      (x : T) (rows : List T)
      → (runs_after r gap x rows).0 ++ flat_map run_rows (runs_after r gap x rows).1 ≡ rows
  unfolding runs_after flat_map
  runs_after-concat x [] = refl
  runs_after-concat x (y ∷ rows) = elim (Bool-cases (mergeable r gap x y)) [
    | inl e ↦ rw (e, runs_after) (ap (◌∷◌ y) (runs_after-concat y rows))
    | inr e ↦ rw (e, runs_after) (ap (◌∷◌ y) (runs_after-concat y rows))
  ]

  runs-concat : (rows : List T) → flat_map run_rows (runs r gap rows) ≡ rows
  unfolding runs flat_map
  runs-concat [] = refl
  runs-concat (x ∷ rows) = ap (◌∷◌ x) (runs_after-concat x rows)

  ids-summarise :
      (rs : List (T × List T))
      → flat_map (λ (s : Span T). s.1) (map (summarise r gap) rs)
        ≡ map r.id_of (flat_map run_rows rs)
  unfolding summarise flat_map
  ids-summarise [] = refl
  ids-summarise ((x, more) ∷ rs) =
      ap (λ l. r.id_of x ∷ l)
        (ap (◌++◌ (map r.id_of more)) (ids-summarise rs)
          ∙ sym (map-append r.id_of more (flat_map run_rows rs)))

  -- Every row id stands in exactly one span, in the order of the rows.
  pub fold-ids :
      MergeLaws r
      → (rows : List T) → flat_map (λ (s : Span T). s.1) (fold r gap rows) ≡ map r.id_of rows
  fold-ids laws rows =
      rw (fold-runs r gap laws rows, ids-summarise (runs r gap rows), runs-concat rows)

  -- A runtime that each merge adds up.
  module _ (weight : T → ℕ)
      (adds : (a b : T) → weight (r.merge_into a b) ≡ saturating_add (weight a) (weight b)) where
    weight-foldl :
        (x : T) (more : List T)
        → weight x + sum_of weight more ≤ i64_max
        → weight (foldl r.merge_into x more) ≡ weight x + sum_of weight more
    weight-foldl x [] h = omega arith
    weight-foldl x (y ∷ more) h =
        let step : weight (r.merge_into x y) ≡ weight x + weight y =
          omega (arith, adds x y, saturating_add_lem (weight x) (weight y)) in
        omega (arith, step, weight-foldl (r.merge_into x y) more (omega (arith, step)))

    weight-runs :
        (rs : List (T × List T))
        → sum_of weight (flat_map run_rows rs) ≤ i64_max
        → sum_of (λ (s : Span T). weight s.0) (map (summarise r gap) rs)
          ≡ sum_of weight (flat_map run_rows rs)
    unfolding summarise flat_map
    weight-runs [] h = refl
    weight-runs ((x, more) ∷ rs) h =
        let split = sum_of-append weight more (flat_map run_rows rs) in
        omega (
          arith,
          split,
          weight-foldl x more (omega (arith, split, h)),
          weight-runs rs (omega (arith, split, h)),
        )

    -- While the rows' sum fits an `i64`, the spans have the same sum.
    pub fold-weight :
        MergeLaws r
        → (rows : List T) → sum_of weight rows ≤ i64_max
        → sum_of (λ (s : Span T). weight s.0) (fold r gap rows) ≡ sum_of weight rows
    fold-weight laws rows h = rw (fold-runs r gap laws rows) (
        weight-runs (runs r gap rows) (rw (runs-concat rows) h)
        ∙ ap (sum_of weight) (runs-concat rows))

  -- Neighbouring runs stay apart when they are compared again as spans.
  module _ (laws : MergeLaws r) where
    foldl-keeps_application :
        (x : T) (more : List T)
        → r.application_id_of (foldl r.merge_into x more) ≡ r.application_id_of x
    foldl-keeps_application x [] = refl
    foldl-keeps_application x (y ∷ more) =
        foldl-keeps_application (r.merge_into x y) more ∙ laws.keeps_application x y

    foldl-keeps_end :
        (x : T) (more : List T) → r.ended_at_of (foldl r.merge_into x more) ≡ r.ended_at_of x
    foldl-keeps_end x [] = refl
    foldl-keeps_end x (y ∷ more) = foldl-keeps_end (r.merge_into x y) more ∙ laws.keeps_end x y

    mergeable-foldl :
        (acc y : T) (more : List T)
        → mergeable r gap acc (foldl r.merge_into y more) ≡ mergeable r gap acc y
    mergeable-foldl acc y more =
        mergeable-congr r gap acc _ _ (foldl-keeps_application y more) (foldl-keeps_end y more)

    abbrev heads : List (T × List T) → List T
    heads = map (λ run. (summarise r gap run).0)

    abbrev alone : T → T × List T
    alone x = (x, [])

    runs_after-heads :
        (acc x : T) (rows : List T)
        → (r.application_id_of acc ≡ r.application_id_of x)
          × (r.started_at_of acc ≡ r.started_at_of x)
        → runs_after r gap
            (foldl r.merge_into acc (runs_after r gap x rows).0)
            (heads (runs_after r gap x rows).1)
          ≡ ([], map alone (heads (runs_after r gap x rows).1))
    unfolding runs_after summarise
    runs_after-heads acc x [] agree = refl
    runs_after-heads acc x (y ∷ rows) agree = elim (Bool-cases (mergeable r gap x y)) [
      | inl e ↦
          rw (e, runs_after)
            (runs_after-heads (r.merge_into acc y) y rows (merge-Agree r gap laws acc x y agree e))
      | inr e ↦
          let later = runs_after-heads y y rows (refl, refl) in
          let apart =
            mergeable-foldl acc y (runs_after r gap y rows).0
            ∙ mergeable-Agree r gap laws acc x y agree
            ∙ e in
          ground (arith, e, apart, later)
    ]

    fold-heads : (rows : List T) → map (λ s. s.0) (fold r gap rows) ≡ heads (runs r gap rows)
    fold-heads rows =
        rw (fold-runs r gap laws rows) (map-map (λ s. s.0) (summarise r gap) (runs r gap rows))

    runs-heads :
        (rows : List T) → runs r gap (heads (runs r gap rows)) ≡ map alone (heads (runs r gap rows))
    unfolding runs summarise
    runs-heads [] = refl
    runs-heads (x ∷ rows) = ground (arith, runs_after-heads x x rows (refl, refl))

    heads-alone : (rows : List T) → heads (map alone rows) ≡ rows
    unfolding summarise
    heads-alone [] = refl
    heads-alone (x ∷ rows) = ap (◌∷◌ x) (heads-alone rows)

    -- Folding the spans again fuses nothing more: neighbours in the result are not mergeable.
    pub fold_twice :
        (rows : List T)
        → map (λ s. s.0) (fold r gap (map (λ s. s.0) (fold r gap rows)))
          ≡ map (λ s. s.0) (fold r gap rows)
    fold_twice rows =
        rw (fold-heads rows, fold-heads (heads (runs r gap rows)), runs-heads rows)
          (heads-alone (heads (runs r gap rows)))
