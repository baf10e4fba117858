-- ===== src/Enrich/Cascade.antt =====
-- crates/ludex-enrich/src/lib.rs: what the patch holds, and what the cascade makes of the row.
use ludex.Base.{
  ◌≡◌, refl, sym, ap, ◌∙◌, Option, none, some, List, [], ◌∷◌, nat_eq, map_some, String,
}
use ludex.Types.{Application, IdentityUpdate, DetectedVia}
use ludex.Store.Edits.{coalesce}
use ludex.Enrich.{no_update, merge_into, Enrichers, build_patch, provenance}

-- An answer of a source, with its name.
abbrev pub Answer : Type 0
Answer = DetectedVia × Option IdentityUpdate

-- The answers in ascending priority.
abbrev pub answers : Enrichers → Application → List Answer
answers sources app =
    (DetectedVia.desktop, sources.desktop app)
    ∷ (DetectedVia.pe, sources.pe app)
    ∷ (DetectedVia.gog, sources.gog app)
    ∷ (DetectedVia.heroic, sources.heroic app)
    ∷ (DetectedVia.lutris, sources.lutris app)
    ∷ (DetectedVia.steam, sources.steam app)
    ∷ []

-- What the last answer that has something in a field has there.
unfoldable pub last_given {ℓ} : {A : Type ℓ} → (IdentityUpdate → Option A) → List Answer → Option A
last_given field [] = none
last_given field ((source, none) ∷ rest) = last_given field rest
last_given field ((source, some p) ∷ rest) = coalesce (last_given field rest) (field p)

-- The source of the last answer that has a name.
unfoldable pub last_namer : List Answer → Option DetectedVia
last_namer [] = none
last_namer ((source, none) ∷ rest) = last_namer rest
last_namer ((source, some p) ∷ rest) =
    coalesce (last_namer rest) (map_some (λ name. source) p.product_name)

-- Each field of the patch is the last one given, and the provenance is that of the name.
pub record LastGiven (answered : List Answer) (result : IdentityUpdate) : Type 0 where
  pub product_name : result.product_name ≡ last_given (λ p. p.product_name) answered
  pub publisher : result.publisher ≡ last_given (λ p. p.publisher) answered
  pub version : result.version ≡ last_given (λ p. p.version) answered
  pub executable_path : result.executable_path ≡ last_given (λ p. p.executable_path) answered
  pub launcher_exe_path : result.launcher_exe_path ≡ last_given (λ p. p.launcher_exe_path) answered
  pub wineprefix_path : result.wineprefix_path ≡ last_given (λ p. p.wineprefix_path) answered
  pub installed_flatpak_ref :
      result.installed_flatpak_ref ≡ last_given (λ p. p.installed_flatpak_ref) answered
  pub graphics_platform : result.graphics_platform ≡ last_given (λ p. p.graphics_platform) answered
  pub process_architecture :
      result.process_architecture ≡ last_given (λ p. p.process_architecture) answered
  pub group_id : result.group_id ≡ last_given (λ p. p.group_id) answered
  pub icon_16 : result.icons.icon_16 ≡ last_given (λ p. p.icons.icon_16) answered
  pub icon_32 : result.icons.icon_32 ≡ last_given (λ p. p.icons.icon_32) answered
  pub icon_48 : result.icons.icon_48 ≡ last_given (λ p. p.icons.icon_48) answered
  pub icon_256 : result.icons.icon_256 ≡ last_given (λ p. p.icons.icon_256) answered
  pub detected_via : result.detected_via ≡ last_namer answered

unfoldable merged : IdentityUpdate → List Answer → IdentityUpdate
merged acc [] = acc
merged acc ((source, p) ∷ rest) = merged (merge_into acc source p) rest

coalesce-none {ℓ} : {A : Type ℓ} (o : Option A) → coalesce o none ≡ o
coalesce-none none = refl
coalesce-none (some a) = refl

coalesce_assoc {ℓ} :
    {A : Type ℓ} (o p q : Option A) → coalesce (coalesce o p) q ≡ coalesce o (coalesce p q)
coalesce_assoc none p q = refl
coalesce_assoc (some a) p q = refl

merged-field {ℓ} :
    {A : Type ℓ} (field : IdentityUpdate → Option A)
    → ((acc p : IdentityUpdate) (source : DetectedVia)
        → field (merge_into acc source (some p)) ≡ coalesce (field p) (field acc))
    → (acc : IdentityUpdate) (answered : List Answer)
    → field (merged acc answered) ≡ coalesce (last_given field answered) (field acc)
unfolding merged last_given merge_into
merged-field field law acc [] = refl
merged-field field law acc ((source, none) ∷ rest) = merged-field field law acc rest
merged-field field law acc ((source, some p) ∷ rest) =
    merged-field field law (merge_into acc source (some p)) rest
    ∙ ap (coalesce (last_given field rest)) (law acc p source)
    ∙ sym (coalesce_assoc (last_given field rest) (field p) (field acc))

provenance-coalesce :
    (name : Option String) (source : DetectedVia) (old : Option DetectedVia)
    → provenance name source old ≡ coalesce (map_some (λ n. source) name) old
provenance-coalesce none source old = refl
provenance-coalesce (some name) source old = refl

merged-namer :
    (acc : IdentityUpdate) (answered : List Answer)
    → (merged acc answered).detected_via ≡ coalesce (last_namer answered) acc.detected_via
unfolding merged last_namer merge_into
merged-namer acc [] = refl
merged-namer acc ((source, none) ∷ rest) = merged-namer acc rest
merged-namer acc ((source, some p) ∷ rest) =
    merged-namer (merge_into acc source (some p)) rest
    ∙ ap (coalesce (last_namer rest)) (provenance-coalesce p.product_name source acc.detected_via)
    ∙ sym
        (coalesce_assoc (last_namer rest) (map_some (λ n. source) p.product_name) acc.detected_via)

given-field {ℓ} :
    {A : Type ℓ} (field : IdentityUpdate → Option A)
    → ((acc p : IdentityUpdate) (source : DetectedVia)
        → field (merge_into acc source (some p)) ≡ coalesce (field p) (field acc))
    → field no_update ≡ none
    → (answered : List Answer) → field (merged no_update answered) ≡ last_given field answered
given-field field law start answered =
    merged-field field law no_update answered
    ∙ ap (coalesce (last_given field answered)) start
    ∙ coalesce-none (last_given field answered)

-- Whatever the six sources answer, each field of the patch holds what the last of them, in the order `.desktop`, PE,
-- GOG, Heroic, Lutris, Steam, that gives the field has for it, and is empty where none gives it; the provenance is
-- the last source that gave a name.
pub build_patch-LastGiven :
    (sources : Enrichers) (app : Application)
    → LastGiven (answers sources app) (build_patch sources app)
unfolding build_patch merged merge_into
build_patch-LastGiven sources app = record {
  product_name =
      given-field (λ p. p.product_name) (λ acc p source. refl) refl (answers sources app);
  publisher = given-field (λ p. p.publisher) (λ acc p source. refl) refl (answers sources app);
  version = given-field (λ p. p.version) (λ acc p source. refl) refl (answers sources app);
  executable_path =
      given-field (λ p. p.executable_path) (λ acc p source. refl) refl (answers sources app);
  launcher_exe_path =
      given-field (λ p. p.launcher_exe_path) (λ acc p source. refl) refl (answers sources app);
  wineprefix_path =
      given-field (λ p. p.wineprefix_path) (λ acc p source. refl) refl (answers sources app);
  installed_flatpak_ref =
      given-field (λ p. p.installed_flatpak_ref) (λ acc p source. refl) refl (answers sources app);
  graphics_platform =
      given-field (λ p. p.graphics_platform) (λ acc p source. refl) refl (answers sources app);
  process_architecture =
      given-field (λ p. p.process_architecture) (λ acc p source. refl) refl (answers sources app);
  group_id = given-field (λ p. p.group_id) (λ acc p source. refl) refl (answers sources app);
  icon_16 = given-field (λ p. p.icons.icon_16) (λ acc p source. refl) refl (answers sources app);
  icon_32 = given-field (λ p. p.icons.icon_32) (λ acc p source. refl) refl (answers sources app);
  icon_48 = given-field (λ p. p.icons.icon_48) (λ acc p source. refl) refl (answers sources app);
  icon_256 = given-field (λ p. p.icons.icon_256) (λ acc p source. refl) refl (answers sources app);
  detected_via =
      merged-namer no_update (answers sources app)
      ∙ coalesce-none (last_namer (answers sources app));
}
