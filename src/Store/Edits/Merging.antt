-- ===== src/Store/Edits/Merging.antt =====
-- crates/ludex-core/src/repo/application.rs, `merge_into`: what the merged database holds.
use ludex.Base.{
  ℕ, ◌≡◌, refl, sym, ap, ◌∙◌, ◌⊎◌, true, false, ◌&&◌, Option, none, some, List, [], ◌∷◌, arith,
  ◌==◌, nat_eq, any, inl, inr, Bool-cases, Option-cases, All,
}
use ludex.Types.{Session, Application, ok, ◌>>=◌, >>=-eq-ok}
use ludex.Store.{Db, is_open_for, update_where, has_id}
use ludex.Store.Invariant.{IsValid, Agrees, HasApplication}
use ludex.Store.Sessions.{Keeps}
use ludex.Store.Closing.{update-AppIds, update-has_id, owned-update}
use ludex.Store.Edits.{
  moved, belongs_to, find_application, absorb, fill, drop_application, reparent, scalar_max,
  merge_found, merge_into,
}
use ludex.Store.Edits.Moved.{
  moved-none_left, moved-Ids, moved-OneOpen, moved-IsChecked, closed-moved_other, length-moved,
  sum-moved, max-moved, find_application-All,
}
use ludex.Store.Edits.Valid.{others, others-AppIds, any-others, Agrees-same}

module _ (src : Application) (dst_id : ℕ) (apart : (src.id == dst_id) ≡ false)
    (rows : List Session) where
  -- The row that the destination becomes.
  abbrev merged : Application → Application
  merged dst = fill src (absorb src dst)

  absorbed-Agrees :
      (dst : Application)
      → dst.id ≡ dst_id
      → Agrees rows src
      → Agrees rows dst
      → Agrees (moved src.id dst_id rows) (merged dst)
  absorbed-Agrees dst at from to = record {
    run_count =
        rw at
          (ground (arith, length-moved src.id dst_id apart rows, at, from.run_count, to.run_count));
    total_full = rw at (
        ground (
          arith,
          sum-moved src.id dst_id apart (λ s. s.full_runtime_seconds) rows (λ s. refl),
          at,
          from.total_full,
          to.total_full,
        ));
    total_interactive = rw at (
        ground (
          arith,
          sum-moved src.id dst_id apart (λ s. s.interactive_runtime_seconds) rows (λ s. refl),
          at,
          from.total_interactive,
          to.total_interactive,
        ));
    longest_full = rw at (
        ground (
          arith,
          max-moved src.id dst_id apart (λ s. s.full_runtime_seconds) rows (λ s. refl),
          at,
          from.longest_full,
          to.longest_full,
        ));
  }

  -- The rows of `applications` but the source, each with its statistics.
  merged-Agrees :
      (apps : List Application)
      → Agrees rows src
      → All (Agrees rows) apps
      → All (Agrees (moved src.id dst_id rows)) (
          others src.id (
            update_where
              (has_id dst_id)
              (fill src)
              (update_where (has_id dst_id) (absorb src) apps)))
  merged-Agrees [] from h = tt
  merged-Agrees (app ∷ apps) from h = elim (Bool-cases (has_id dst_id app)) [
    | inl e ↦
        let other : has_id src.id app ≡ false = ground (arith, e, apart) in
        rw (e, e, other)
          (absorbed-Agrees app (ground (arith, e)) from h.0, merged-Agrees apps from h.1)
    | inr e ↦ elim (Bool-cases (has_id src.id app)) [
      | inl same ↦ rw (e, e, same) (merged-Agrees apps from h.1)
      | inr other ↦
          rw (e, e, other)
            (
              Agrees-same rows (moved src.id dst_id rows) app
                  (closed-moved_other src.id dst_id apart app.id rows other e) h.0,
              merged-Agrees apps from h.1,
            )
    ]
  ]

  moved-owned :
      (apps : List Application) (ss : List Session)
      → any (has_id dst_id) apps ≡ true
      → All (HasApplication apps) ss
      → All (HasApplication (others src.id apps)) (moved src.id dst_id ss)
  moved-owned apps [] there h = tt
  moved-owned apps (s ∷ ss) there h = elim (Bool-cases (belongs_to src.id s)) [
    | inl e ↦
        rw e (
          any-others src.id dst_id apps (ground (arith, apart)) there,
          moved-owned apps ss there h.1,
        )
    | inr e ↦ rw e (any-others src.id s.application_id apps e h.0, moved-owned apps ss there h.1)
  ]

  update-any :
      (f : Application → Application) (apps : List Application)
      → ((app : Application) → (f app).id ≡ app.id)
      → any (has_id dst_id) apps ≡ true
      → any (has_id dst_id) (update_where (has_id dst_id) f apps) ≡ true
  update-any f apps keep h = update-has_id (has_id dst_id) f dst_id apps keep ∙ h

-- The database after the last statement.
abbrev pub merged_db : ℕ → Application → Db → Db
merged_db dst_id src db = drop_application src.id (record db {
  sessions = moved src.id dst_id db.sessions;
  applications =
      update_where (has_id dst_id) (fill src)
        (update_where (has_id dst_id) (absorb src) db.applications);
})

pub merged_db-IsValid :
    (dst_id : ℕ) (src : Application) (db : Db)
    → (src.id == dst_id) ≡ false
    → (any (is_open_for src.id) db.sessions && any (is_open_for dst_id) db.sessions) ≡ false
    → any (has_id dst_id) db.applications ≡ true
    → Agrees db.sessions src
    → IsValid db
    → IsValid (merged_db dst_id src db)
merged_db-IsValid dst_id src db apart free there from v =
    let absorbed = update_where (has_id dst_id) (absorb src) db.applications in
    let apps = update_where (has_id dst_id) (fill src) absorbed in
    let there' : any (has_id dst_id) apps ≡ true =
      update-any src dst_id apart db.sessions (fill src) absorbed (λ app. refl)
        (update-any src dst_id apart db.sessions (absorb src) db.applications (λ app. refl)
          there) in
    rw (moved-none_left src.id dst_id apart db.sessions) (record {
      session_ids = moved-Ids src.id dst_id apart db.next_session_id db.sessions v.session_ids;
      application_ids = others-AppIds src.id db.next_application_id apps (
          update-AppIds (has_id dst_id) (fill src) db.next_application_id absorbed (λ app. refl)
            (update-AppIds (has_id dst_id) (absorb src) db.next_application_id db.applications
              (λ app. refl) v.application_ids));
      one_open = moved-OneOpen src.id dst_id apart db.sessions free v.one_open;
      checked = moved-IsChecked src.id dst_id apart db.sessions v.checked;
      owned = moved-owned src dst_id apart db.sessions apps db.sessions there' (
          owned-update (has_id dst_id) (fill src) absorbed (λ app. refl) db.sessions
            (owned-update (has_id dst_id) (absorb src) db.applications (λ app. refl) db.sessions
              v.owned));
      agrees = merged-Agrees src dst_id apart db.sessions db.applications from v.agrees;
    })

merge_found-IsValid :
    (src_id dst_id : ℕ) (src : Application) (db : Db)
    → (src_id == dst_id) ≡ false
    → find_application src_id db.applications ≡ some src
    → IsValid db
    → Keeps IsValid (merge_found src_id dst_id (some src) db)
merge_found-IsValid src_id dst_id src db apart found v =
    let (at, from) =
      find_application-All (Agrees db.sessions) src_id db.applications src found v.agrees in
    elim (Bool-cases (any (has_id dst_id) db.applications)) [
      | inr absent ↦ rw absent tt
      | inl there ↦
          elim (Bool-cases
            (any (is_open_for src_id) db.sessions && any (is_open_for dst_id) db.sessions)) [
              | inl both ↦ rw (there, both, ◌>>=◌) tt
              | inr free ↦
                  rw (there, free, ◌>>=◌, sym at)
                    (merged_db-IsValid dst_id src db (rw at apart) (rw at free) there from v)
            ]
    ]

pub merge_into-IsValid :
    (src_id dst_id : ℕ) (db : Db) → IsValid db → Keeps IsValid (merge_into src_id dst_id db)
unfolding merge_into
merge_into-IsValid src_id dst_id db v = elim (Bool-cases (src_id == dst_id)) [
  | inl e ↦ rw e tt
  | inr apart ↦ elim (Option-cases (find_application src_id db.applications)) [
    | inl e ↦ rw (apart, e) tt
    | inr (src, e) ↦ rw (apart, e) (merge_found-IsValid src_id dst_id src db apart e v)
  ]
]

pub find-updated :
    (id : ℕ) (f : Application → Application) (apps : List Application) (app : Application)
    → ((x : Application) → (f x).id ≡ x.id)
    → find_application id apps ≡ some app
    → find_application id (update_where (has_id id) f apps) ≡ some (f app)
unfolding find_application
find-updated id f [] app keep e = cc
find-updated id f (x ∷ apps) app keep e = elim (Bool-cases (has_id id x)) [
  | inl same ↦
      let row : x ≡ app = ground (arith, e, same) in
      rw same (ground (arith, keep x, same, ap f row))
  | inr other ↦ rw (other, other) (find-updated id f apps app keep (ground (arith, e, other)))
]

pub find-others :
    (id other : ℕ) (apps : List Application)
    → (other == id) ≡ false
    → find_application id (others other apps) ≡ find_application id apps
unfolding find_application
find-others id other [] apart = refl
find-others id other (app ∷ apps) apart = ground (arith, apart, find-others id other apps apart)

-- The applications of a merge that succeeds.
merge_found-ok :
    (src_id dst_id : ℕ) (src : Application) (db db' : Db)
    → merge_found src_id dst_id (some src) db ≡ ok db'
    → db'.applications
      ≡ others src_id (
          update_where
            (has_id dst_id)
            (fill src)
            (update_where (has_id dst_id) (absorb src) db.applications))
merge_found-ok src_id dst_id src db db' e =
    elim (Bool-cases (any (has_id dst_id) db.applications)) [
      | inr absent ↦ cc (rw absent at e)
      | inl there ↦
          let (rows, moved_rows, rest) =
            >>=-eq-ok (reparent src_id dst_id db.sessions) _ (rw there at e) in
          ground (arith, rest)
    ]

merge_into-found :
    (src_id dst_id : ℕ) (src : Application) (db db' : Db)
    → find_application src_id db.applications ≡ some src
    → merge_into src_id dst_id db ≡ ok db'
    → ((src_id == dst_id) ≡ false) × (merge_found src_id dst_id (some src) db ≡ ok db')
unfolding merge_into
merge_into-found src_id dst_id src db db' from e = elim (Bool-cases (src_id == dst_id)) [
  | inl same ↦ cc (rw same at e)
  | inr apart ↦ (apart, rw (apart, from) at e)
]

-- Where one of the two applications was never played, the destination's row of a merge that succeeds
-- has no time of the last play, even if the other application had one.
pub merge_into-never_played :
    (src_id dst_id : ℕ) (src dst : Application) (db db' : Db)
    → find_application src_id db.applications ≡ some src
    → find_application dst_id db.applications ≡ some dst
    → merge_into src_id dst_id db ≡ ok db'
    → (src.last_played_at ≡ none) ⊎ (dst.last_played_at ≡ none)
    → (row : Application) × (find_application dst_id db'.applications ≡ some row)
      × (row.last_played_at ≡ none)
merge_into-never_played src_id dst_id src dst db db' from to e never =
    let (apart, e') = merge_into-found src_id dst_id src db db' from e in
    let absorbed = update_where (has_id dst_id) (absorb src) db.applications in
    (
      fill src (absorb src dst),
      ap (find_application dst_id) (merge_found-ok src_id dst_id src db db' e')
          ∙ find-others dst_id src_id (update_where (has_id dst_id) (fill src) absorbed)
              (ground (arith, apart))
          ∙ find-updated dst_id (fill src) absorbed (absorb src dst) (λ x. refl)
              (find-updated dst_id (absorb src) db.applications dst (λ x. refl) to),
      erased src.last_played_at dst.last_played_at never,
    )
  where
    erased : (a b : Option ℕ) → (a ≡ none) ⊎ (b ≡ none) → scalar_max b a ≡ none
    erased none none h = refl
    erased none (some y) h = refl
    erased (some x) none h = refl
    erased (some x) (some y) (inl h) = cc
    erased (some x) (some y) (inr h) = cc
