-- ===== src/Store/Edits/Merged.antt =====
-- crates/ludex-core/src/repo/application.rs, `merge_into`: what becomes of the two applications, of
-- the others, and of the sessions.
use ludex.Base.{
  ℕ, ◌+◌, ◌≡◌, refl, sym, ap, ◌∙◌, ◌⊎◌, inl, inr, min, max, true, false, not, ◌&&◌, ◌||◌, Option,
  none, some, List, [], ◌∷◌, map, arith, ◌==◌, nat_eq, any, where_rows, Bool-cases, Option-cases,
  if◌then◌else◌,
}
use ludex.Types.{
  Session, Application, GraphicsPlatform, ProcessArchitecture, Result, ok, err, ◌>>=◌,
}
use ludex.Store.{Db, is_open_for, update_where, has_id}
use ludex.Store.Invariant.{IsValid, Agrees}
use ludex.Store.Edits.{
  moved, find_application, absorb, fill, merge_found, merge_into, fill_platform, fill_architecture,
  coalesce,
}
use ludex.Store.Edits.Moved.{moved-none_left, find_application-All}
use ludex.Store.Edits.Valid.{others}
use ludex.Store.Edits.Merging.{merged_db, merged_db-IsValid, find-updated, find-others}

-- The value of a column whose gap is filled: the destination's, or the source's where that is NULL.
abbrev pub Filled {ℓ} : {A : Type ℓ} → Option A → Option A → Option A → Type ℓ
Filled (some v) from row = row ≡ some v
Filled none from row = row ≡ from

abbrev pub FilledPlatform : GraphicsPlatform → GraphicsPlatform → GraphicsPlatform → Type 0
FilledPlatform GraphicsPlatform.unknown from row = row ≡ from
FilledPlatform to from row = row ≡ to

abbrev pub FilledArchitecture :
    ProcessArchitecture → ProcessArchitecture → ProcessArchitecture → Type 0
FilledArchitecture ProcessArchitecture.unknown from row = row ≡ from
FilledArchitecture to from row = row ≡ to

-- The destination's row after the merge: its identity, the figures of both, and its gaps filled.
pub record Folded (src dst row : Application) : Type 0 where
  pub id : row.id ≡ dst.id
  pub launcher_type : row.launcher_type ≡ dst.launcher_type
  pub launcher_id : row.launcher_id ≡ dst.launcher_id
  pub product_name : row.product_name ≡ dst.product_name
  pub detected_via : row.detected_via ≡ dst.detected_via
  pub run_count : row.stat_run_count ≡ src.stat_run_count + dst.stat_run_count
  pub total_full : row.stat_total_full ≡ src.stat_total_full + dst.stat_total_full
  pub total_interactive :
      row.stat_total_interactive ≡ src.stat_total_interactive + dst.stat_total_interactive
  pub longest_full : row.stat_longest_full ≡ max src.stat_longest_full dst.stat_longest_full
  pub first_seen : row.first_seen_at ≡ min src.first_seen_at dst.first_seen_at
  pub publisher : Filled dst.publisher src.publisher row.publisher
  pub version : Filled dst.version src.version row.version
  pub executable_path : Filled dst.executable_path src.executable_path row.executable_path
  pub launcher_exe_path : Filled dst.launcher_exe_path src.launcher_exe_path row.launcher_exe_path
  pub wineprefix_path : Filled dst.wineprefix_path src.wineprefix_path row.wineprefix_path
  pub flatpak_ref :
      Filled dst.installed_flatpak_ref src.installed_flatpak_ref row.installed_flatpak_ref
  pub group_id : Filled dst.group_id src.group_id row.group_id
  pub icon_16 : Filled dst.icon_16 src.icon_16 row.icon_16
  pub icon_32 : Filled dst.icon_32 src.icon_32 row.icon_32
  pub icon_48 : Filled dst.icon_48 src.icon_48 row.icon_48
  pub icon_256 : Filled dst.icon_256 src.icon_256 row.icon_256
  pub graphics_platform :
      FilledPlatform dst.graphics_platform src.graphics_platform row.graphics_platform
  pub process_architecture :
      FilledArchitecture dst.process_architecture src.process_architecture row.process_architecture

-- A session of the source is the destination's, any other is as it was.
abbrev pub reassigned : ℕ → ℕ → Session → Session
reassigned src_id dst_id s =
    if s.application_id == src_id then record s { application_id = dst_id } else s

abbrev pub uninvolved : ℕ → ℕ → List Application → List Application
uninvolved src_id dst_id = where_rows (λ app. not (app.id == src_id || app.id == dst_id))

pub record Merged (src_id dst_id : ℕ) (db db' : Db) : Type 0 where
  pub valid : IsValid db'
  pub sessions : db'.sessions ≡ map (reassigned src_id dst_id) db.sessions
  pub gone : find_application src_id db'.applications ≡ none
  pub folded :
      (src dst row : Application) × (find_application src_id db.applications ≡ some src)
      × (find_application dst_id db.applications ≡ some dst)
      × (find_application dst_id db'.applications ≡ some row)
      × Folded src dst row
  pub rest : uninvolved src_id dst_id db'.applications ≡ uninvolved src_id dst_id db.applications

-- A refusal has one of four reasons.
abbrev pub MergeOutcome : ℕ → ℕ → Db → Result Db → Type 0
MergeOutcome src_id dst_id db (ok db') = Merged src_id dst_id db db'
MergeOutcome src_id dst_id db (err e) =
    ((src_id == dst_id) ≡ true)
    ⊎ (find_application src_id db.applications ≡ none)
    ⊎ (find_application dst_id db.applications ≡ none)
    ⊎ ((any (is_open_for src_id) db.sessions && any (is_open_for dst_id) db.sessions) ≡ true)

moved-reassigned :
    (src_id dst_id : ℕ) (rows : List Session)
    → moved src_id dst_id rows ≡ map (reassigned src_id dst_id) rows
moved-reassigned src_id dst_id [] = refl
moved-reassigned src_id dst_id (s ∷ rows) =
    ap (λ rest. reassigned src_id dst_id s ∷ rest) (moved-reassigned src_id dst_id rows)

find-gone : (id : ℕ) (apps : List Application) → find_application id (others id apps) ≡ none
unfolding find_application
find-gone id [] = refl
find-gone id (app ∷ apps) = ground (arith, find-gone id apps)

rest-others :
    (src_id dst_id : ℕ) (f g : Application → Application) (apps : List Application)
    → ((app : Application) → (f app).id ≡ app.id)
    → ((app : Application) → (g app).id ≡ app.id)
    → uninvolved src_id dst_id
        (others src_id (update_where (has_id dst_id) g (update_where (has_id dst_id) f apps)))
      ≡ uninvolved src_id dst_id apps
rest-others src_id dst_id f g [] keep_f keep_g = refl
rest-others src_id dst_id f g (app ∷ apps) keep_f keep_g =
    ground (arith, keep_f app, keep_g (f app), rest-others src_id dst_id f g apps keep_f keep_g)

find-any :
    (id : ℕ) (apps : List Application)
    → any (has_id id) apps ≡ true
    → (app : Application) × (find_application id apps ≡ some app)
unfolding find_application
find-any id [] h = cc
find-any id (app ∷ apps) h = elim (Bool-cases (has_id id app)) [
  | inl same ↦ (app, rw same refl)
  | inr other ↦ let (found, e) = find-any id apps (ground (arith, h, other)) in (found, rw other e)
]

find-absent :
    (id : ℕ) (apps : List Application)
    → any (has_id id) apps ≡ false
    → find_application id apps ≡ none
unfolding find_application
find-absent id [] h = refl
find-absent id (app ∷ apps) h = ground (arith, h, find-absent id apps)

coalesce-Filled {ℓ} : {A : Type ℓ} (to from : Option A) → Filled to from (coalesce to from)
coalesce-Filled none from = refl
coalesce-Filled (some v) from = refl

platform-Filled : (to from : GraphicsPlatform) → FilledPlatform to from (fill_platform to from)
platform-Filled GraphicsPlatform.unknown from = refl
platform-Filled GraphicsPlatform.directx from = refl
platform-Filled GraphicsPlatform.opengl from = refl
platform-Filled GraphicsPlatform.vulkan from = refl

architecture-Filled :
    (to from : ProcessArchitecture) → FilledArchitecture to from (fill_architecture to from)
architecture-Filled ProcessArchitecture.unknown from = refl
architecture-Filled ProcessArchitecture.x86_64 from = refl
architecture-Filled ProcessArchitecture.i686 from = refl
architecture-Filled ProcessArchitecture.aarch64 from = refl

fill-Folded : (src dst : Application) → Folded src dst (fill src (absorb src dst))
fill-Folded src dst = record {
  id = refl;
  launcher_type = refl;
  launcher_id = refl;
  product_name = refl;
  detected_via = refl;
  run_count = ground arith;
  total_full = ground arith;
  total_interactive = ground arith;
  longest_full = ground arith;
  first_seen = ground arith;
  publisher = coalesce-Filled dst.publisher src.publisher;
  version = coalesce-Filled dst.version src.version;
  executable_path = coalesce-Filled dst.executable_path src.executable_path;
  launcher_exe_path = coalesce-Filled dst.launcher_exe_path src.launcher_exe_path;
  wineprefix_path = coalesce-Filled dst.wineprefix_path src.wineprefix_path;
  flatpak_ref = coalesce-Filled dst.installed_flatpak_ref src.installed_flatpak_ref;
  group_id = coalesce-Filled dst.group_id src.group_id;
  icon_16 = coalesce-Filled dst.icon_16 src.icon_16;
  icon_32 = coalesce-Filled dst.icon_32 src.icon_32;
  icon_48 = coalesce-Filled dst.icon_48 src.icon_48;
  icon_256 = coalesce-Filled dst.icon_256 src.icon_256;
  graphics_platform = platform-Filled dst.graphics_platform src.graphics_platform;
  process_architecture = architecture-Filled dst.process_architecture src.process_architecture;
}

merged_db-Merged :
    (dst_id : ℕ) (src dst : Application) (db : Db)
    → (src.id == dst_id) ≡ false
    → (any (is_open_for src.id) db.sessions && any (is_open_for dst_id) db.sessions) ≡ false
    → any (has_id dst_id) db.applications ≡ true
    → find_application src.id db.applications ≡ some src
    → find_application dst_id db.applications ≡ some dst
    → IsValid db
    → Merged src.id dst_id db (merged_db dst_id src db)
merged_db-Merged dst_id src dst db apart free there from to v =
    let absorbed = update_where (has_id dst_id) (absorb src) db.applications in
    record {
      valid =
          merged_db-IsValid dst_id src db apart free there
            (find_application-All (Agrees db.sessions) src.id db.applications src from v.agrees).1
            v;
      sessions =
          moved-none_left src.id dst_id apart db.sessions
          ∙ moved-reassigned src.id dst_id db.sessions;
      gone = find-gone src.id (update_where (has_id dst_id) (fill src) absorbed);
      folded = (
        src,
        dst,
        fill src (absorb src dst),
        from,
        to,
        find-others dst_id src.id (update_where (has_id dst_id) (fill src) absorbed)
              (ground (arith, apart))
            ∙ find-updated dst_id (fill src) absorbed (absorb src dst) (λ x. refl)
                (find-updated dst_id (absorb src) db.applications dst (λ x. refl) to),
        fill-Folded src dst,
      );
      rest =
          rest-others src.id dst_id (absorb src) (fill src) db.applications (λ x. refl) (λ x. refl);
    }

merge_found-Merged :
    (src_id dst_id : ℕ) (src : Application) (db : Db)
    → (src_id == dst_id) ≡ false
    → find_application src_id db.applications ≡ some src
    → IsValid db
    → MergeOutcome src_id dst_id db (merge_found src_id dst_id (some src) db)
merge_found-Merged src_id dst_id src db apart found v =
    let at : src.id ≡ src_id =
      (find_application-All (Agrees db.sessions) src_id db.applications src found v.agrees).0 in
    elim (Bool-cases (any (has_id dst_id) db.applications)) [
      | inr absent ↦ rw absent (inr (inr (inl (find-absent dst_id db.applications absent))))
      | inl there ↦
          elim (Bool-cases
            (any (is_open_for src_id) db.sessions && any (is_open_for dst_id) db.sessions)) [
              | inl both ↦ rw (there, both, ◌>>=◌) (inr (inr (inr both)))
              | inr free ↦
                  let (dst, to) = find-any dst_id db.applications there in
                  rw (there, free, ◌>>=◌, sym at)
                    (merged_db-Merged dst_id src dst db (rw at apart) (rw at free) there
                      (ap (λ id. find_application id db.applications) at ∙ found) to v)
            ]
    ]

-- Folding one application into another, in a valid database: where it succeeds, the database stays
-- valid; no session is lost or added, each of the source is the destination's and any other is as it
-- was; the source's row is gone; the destination's row keeps its identity, counts the runs and sums the
-- runtimes of both, has the longer of their longest runs and the earlier of their first sightings, and
-- keeps its own metadata where it has some and else takes the source's; the other rows are as they
-- were. Where it fails, the two are the same, one of them does not exist, or both have an open session.
pub merge_into-Merged :
    (src_id dst_id : ℕ) (db : Db)
    → IsValid db
    → MergeOutcome src_id dst_id db (merge_into src_id dst_id db)
unfolding merge_into
merge_into-Merged src_id dst_id db v = elim (Bool-cases (src_id == dst_id)) [
  | inl e ↦ rw e (inl e)
  | inr apart ↦ elim (Option-cases (find_application src_id db.applications)) [
    | inl e ↦ rw (apart, e) (inr (inl e))
    | inr (src, e) ↦ rw (apart, e) (merge_found-Merged src_id dst_id src db apart e v)
  ]
]
