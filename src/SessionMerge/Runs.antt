-- ===== src/SessionMerge/Runs.antt =====
-- What the fold of session_merge.rs means: the rows are cut into runs, between neighbours that are
-- not adjacent plays of one application, and each run is summarised.
use mathlib.Core.List.{reverse-cons, append_assoc, append-nil}
use ludex.Base.{
  ℕ, ◌≡◌, refl, sym, ap, ◌∙◌, inl, inr, true, Option, none, some, List, [], ◌∷◌, ◌++◌, map, foldl,
  reverse, if◌then◌else◌, arith, Bool-cases,
}
use ludex.SessionMerge.{Row, Span, ended_within, mergeable, fold_row, fold}

-- What `fold` relies on in the closures: a merge moves the start back to the older row's, and
-- leaves the application and the end alone.
pub record MergeLaws {T : Type 0} (r : Row T) : Type 0 where
  pub keeps_application : (a b : T) → r.application_id_of (r.merge_into a b) ≡ r.application_id_of a
  pub takes_start : (a b : T) → r.started_at_of (r.merge_into a b) ≡ r.started_at_of b
  pub keeps_end : (a b : T) → r.ended_at_of (r.merge_into a b) ≡ r.ended_at_of a

module _ {T : Type 0} (r : Row T) (gap : ℕ) where
  -- The rest of the run that `x` stands in, and the runs after it. Each row is compared with the
  -- row before it, as it came from the database.
  unfoldable pub runs_after : T → List T → List T × List (T × List T)
  runs_after x [] = ([], [])
  runs_after x (y ∷ rows) =
      let (more, rest) = runs_after y rows in
      if mergeable r gap x y then (y ∷ more, rest) else ([], (y, more) ∷ rest)

  unfoldable pub runs : List T → List (T × List T)
  unfolding runs_after
  runs [] = []
  runs (x ∷ rows) = let (more, rest) = runs_after x rows in (x, more) ∷ rest

  -- A run as one span: the newest row with the older ones merged in, and all ids.
  unfoldable pub summarise : T × List T → Span T
  summarise (x, more) = (foldl r.merge_into x more, map r.id_of (x ∷ more))

  ended_within-start :
      (acc x : T) (end : Option ℕ)
      → r.started_at_of acc ≡ r.started_at_of x
      → ended_within r gap acc end ≡ ended_within r gap x end
  unfolding ended_within
  ended_within-start acc x none e = refl
  ended_within-start acc x (some end) e = rw e

  pub mergeable-congr :
      (acc x y : T)
      → r.application_id_of x ≡ r.application_id_of y
      → r.ended_at_of x ≡ r.ended_at_of y
      → mergeable r gap acc x ≡ mergeable r gap acc y
  unfolding mergeable
  mergeable-congr acc x y app end = rw (app, end)

  -- The fold, front to back.
  collect : Span T → List T → List (Span T)
  collect s [] = s ∷ []
  collect (acc, frags) (y ∷ rows) =
      let fused = collect (r.merge_into acc y, frags ++ r.id_of y ∷ []) rows in
      let apart = (acc, frags) ∷ collect (y, r.id_of y ∷ []) rows in
      if mergeable r gap acc y then fused else apart

  fold_row-collect :
      (s : Span T) (out : List (Span T)) (rows : List T)
      → reverse (foldl (fold_row r gap) (s ∷ out) rows) ≡ reverse out ++ collect s rows
  unfolding fold_row collect
  fold_row-collect s out [] = reverse-cons s out
  fold_row-collect (acc, frags) out (y ∷ rows) = elim (Bool-cases (mergeable r gap acc y)) [
    | inl e ↦
        let ih = fold_row-collect (r.merge_into acc y, frags ++ r.id_of y ∷ []) out rows in
        rw (e, fold_row, collect) ih
    | inr e ↦
        let ih = fold_row-collect (y, r.id_of y ∷ []) ((acc, frags) ∷ out) rows in
        rw (e, fold_row, collect)
          (ih
            ∙ (rw (reverse-cons (acc, frags) out) (
                append_assoc (reverse out) ((acc, frags) ∷ []) (collect (y, r.id_of y ∷ []) rows))))
  ]

  fold-collect : (x : T) (rows : List T) → fold r gap (x ∷ rows) ≡ collect (x, r.id_of x ∷ []) rows
  unfolding fold fold_row
  fold-collect x rows = fold_row-collect (x, r.id_of x ∷ []) [] rows

  module _ (laws : MergeLaws r) where
    -- A span and the row that was merged into it last accept the same next row.
    abbrev pub Agree : T → T → Type 0
    Agree acc x =
        (r.application_id_of acc ≡ r.application_id_of x)
        × (r.started_at_of acc ≡ r.started_at_of x)

    pub mergeable-Agree : (acc x y : T) → Agree acc x → mergeable r gap acc y ≡ mergeable r gap x y
    unfolding mergeable
    mergeable-Agree acc x y (app, start) =
        rw (app, ended_within-start acc x (r.ended_at_of y) start)

    absorb_all : Span T → List T → Span T
    absorb_all (acc, frags) more = (foldl r.merge_into acc more, frags ++ map r.id_of more)

    pub merge-Agree :
        (acc x y : T) → Agree acc x → mergeable r gap x y ≡ true → Agree (r.merge_into acc y) y
    unfolding mergeable
    merge-Agree acc x y agree e =
        ground (arith, laws.keeps_application acc y, laws.takes_start acc y)

    collect-runs_after :
        (acc x : T) (frags : List ℕ) (rows : List T)
        → Agree acc x
        → collect (acc, frags) rows
          ≡ absorb_all (acc, frags) (runs_after x rows).0 ∷ map summarise (runs_after x rows).1
    unfolding collect runs_after absorb_all summarise
    collect-runs_after acc x frags [] agree = ap (λ fs. (acc, fs) ∷ []) (sym (append-nil frags))
    collect-runs_after acc x frags (y ∷ rows) agree = elim (Bool-cases (mergeable r gap x y)) [
      | inl e ↦
          let fused =
            collect-runs_after (r.merge_into acc y) y (frags ++ r.id_of y ∷ []) rows
              (merge-Agree acc x y agree e) in
          ground (
            arith,
            e,
            mergeable-Agree acc x y agree,
            fused,
            append_assoc frags (r.id_of y ∷ []) (map r.id_of (runs_after y rows).0),
          )
      | inr e ↦
          let apart = collect-runs_after y y (r.id_of y ∷ []) rows (refl, refl) in
          ground (arith, e, mergeable-Agree acc x y agree, apart, append-nil frags)
    ]

  -- The fold cuts the rows into their runs and summarises each.
  pub fold-runs : MergeLaws r → (rows : List T) → fold r gap rows ≡ map summarise (runs rows)
  unfolding runs fold absorb_all summarise
  fold-runs laws [] = refl
  fold-runs laws (x ∷ rows) =
      fold-collect x rows ∙ collect-runs_after laws x x (r.id_of x ∷ []) rows (refl, refl)
