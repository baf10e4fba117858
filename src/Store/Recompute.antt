-- ===== src/Store/Recompute.antt =====
-- crates/ludex-core/src/repo/session.rs, `delete_sessions_and_recompute`: the loops that delete and rebuild.
use ludex.Base.{
  ℕ, ◌≡◌, refl, inl, inr, true, false, ◌⊎◌, List, [], ◌∷◌, arith, nat_eq, Bool-cases, All, All-map,
  foldl, beq_swap,
}
use ludex.Base.Table.{contains}
use ludex.Types.{Application, Session}
use ludex.Store.{Db, has_id, closed_rows, recompute, recompute_id, delete_found}
use ludex.Store.Invariant.{IsValid, IsChecked, Agrees, HasApplication, AppIds}
use ludex.Store.Closing.{update-AppIds, owned-update}
use ludex.Store.Filter.{without, deletes-without, where-Ids, where-OneOpen, where-All}

-- The application of every row that is to go is among `app_ids`.
abbrev pub Covers : List ℕ → List ℕ → List Session → Type 0
Covers app_ids ids = All (λ s. contains ids s.id ≡ true → contains app_ids s.application_id ≡ true)

-- Another application's closed rows all stay.
pub closed_rows-without :
    (app_ids ids : List ℕ) (a : ℕ) (rows : List Session)
    → Covers app_ids ids rows
    → contains app_ids a ≡ false
    → closed_rows a (without ids rows) ≡ closed_rows a rows
closed_rows-without app_ids ids a [] covers e = refl
closed_rows-without app_ids ids a (s ∷ rows) covers e =
    ground (
      arith,
      covers.0,
      closed_rows-without app_ids ids a rows covers.1,
      beq_swap s.application_id a,
    )

-- While the loop over `app_ids` runs: an application's statistics agree, or its turn is to come.
abbrev pub Pending : List ℕ → List Session → Application → Type 0
Pending app_ids rows app = (contains app_ids app.id ≡ true) ⊎ Agrees rows app

pub recompute_id-Pending :
    (id : ℕ) (app_ids : List ℕ) (rows : List Session) (apps : List Application)
    → All (Pending (id ∷ app_ids) rows) apps
    → All (Pending app_ids rows) (recompute_id rows apps id)
unfolding contains
recompute_id-Pending id app_ids rows [] h = tt
recompute_id-Pending id app_ids rows (app ∷ apps) h = (
  elim (Bool-cases (has_id id app)) [
    | inl e ↦ rw e (
        inr (record {
          run_count = refl;
          total_full = refl;
          total_interactive = refl;
          longest_full = refl;
        }))
    | inr e ↦ rw e (elim h.0 [
      | inl later ↦ inl (ground (arith, beq_swap app.id id))
      | inr agrees ↦ inr agrees
    ])
  ],
  recompute_id-Pending id app_ids rows apps h.1,
)

pub recompute-Agrees :
    (app_ids : List ℕ) (rows : List Session) (apps : List Application)
    → All (Pending app_ids rows) apps
    → All (Agrees rows) (foldl (recompute_id rows) apps app_ids)
unfolding contains
recompute-Agrees [] rows apps h =
    All-map (Pending [] rows) (Agrees rows) apps (λ app. elim [ inl e ↦ cc | inr agrees ↦ agrees ])
      h
recompute-Agrees (id ∷ app_ids) rows apps h =
    recompute-Agrees app_ids rows (recompute_id rows apps id)
      (recompute_id-Pending id app_ids rows apps h)

-- The ids and the owners under the loop.
pub recompute-AppIds :
    (n : ℕ) (app_ids : List ℕ) (rows : List Session) (apps : List Application)
    → AppIds n apps
    → AppIds n (foldl (recompute_id rows) apps app_ids)
recompute-AppIds n [] rows apps h = h
recompute-AppIds n (id ∷ app_ids) rows apps h =
    recompute-AppIds n app_ids rows (recompute_id rows apps id)
      (update-AppIds (has_id id) (recompute rows) n apps (λ app. refl) h)

pub recompute-owned :
    (app_ids : List ℕ) (rows : List Session) (apps : List Application) (ss : List Session)
    → All (HasApplication apps) ss
    → All (HasApplication (foldl (recompute_id rows) apps app_ids)) ss
recompute-owned [] rows apps ss h = h
recompute-owned (id ∷ app_ids) rows apps ss h =
    recompute-owned app_ids rows (recompute_id rows apps id) ss
      (owned-update (has_id id) (recompute rows) apps (λ app. refl) ss h)

pub start-Pending :
    (app_ids ids : List ℕ) (rows : List Session) (apps : List Application)
    → Covers app_ids ids rows
    → All (Agrees rows) apps
    → All (Pending app_ids (without ids rows)) apps
start-Pending app_ids ids rows apps covers =
    All-map (Agrees rows) (Pending app_ids (without ids rows)) apps λ app h.
      elim (Bool-cases (contains app_ids app.id)) [
        | inl e ↦ inl e
        | inr e ↦ inr (ground (arith, closed_rows-without app_ids ids app.id rows covers e))
      ]

pub delete_found-IsValid :
    (ids app_ids : List ℕ) (db : Db)
    → IsValid db
    → Covers app_ids ids db.sessions
    → IsValid (delete_found ids app_ids db)
unfolding delete_found
delete_found-IsValid ids app_ids db v covers = rw (deletes-without ids db.sessions) (record {
  session_ids = where-Ids _ db.next_session_id db.sessions v.session_ids;
  application_ids =
      recompute-AppIds db.next_application_id app_ids (without ids db.sessions) db.applications
        v.application_ids;
  one_open = where-OneOpen _ db.sessions v.one_open;
  checked = where-All IsChecked _ db.sessions v.checked;
  owned =
      recompute-owned app_ids (without ids db.sessions) db.applications (without ids db.sessions)
        (where-All (HasApplication db.applications) _ db.sessions v.owned);
  agrees =
      recompute-Agrees app_ids (without ids db.sessions) db.applications
        (start-Pending app_ids ids db.sessions db.applications covers v.agrees);
})
