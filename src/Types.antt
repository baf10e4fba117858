-- ===== src/Types.antt =====
-- crates/ludex-core/src/types.rs, key.rs, session.rs, application.rs and error.rs: the enumerations,
-- identities and records that the other parts share. A timestamp (`OffsetDateTime`) is a number of
-- nanoseconds on one time line; ids and runtimes (`i64`, never negative by the schema) are numbers.
use ludex.Base.{
  ℕ, String, ◌≡◌, refl, ◌↔◌, ◌⊎◌, inl, inr, Bool, true, false, ◌&&◌, Option, List, arith, Eq, ◌==◌,
  string_eq,
}

pub data LauncherType : Type 0 where
  steam lutris heroic flatpak native : LauncherType

pub data GraphicsPlatform : Type 0 where
  directx opengl vulkan unknown : GraphicsPlatform

pub data ProcessArchitecture : Type 0 where
  x86_64 i686 aarch64 unknown : ProcessArchitecture

pub data ExitReason : Type 0 where
  terminated foreground_changed recovered sleep_split : ExitReason

pub data DetectedVia : Type 0 where
  desktop pe gog heroic lutris steam : DetectedVia

-- `DetectedVia::as_ref`, the text that the column keeps.
abbrev pub detected_via_text : DetectedVia → String
detected_via_text DetectedVia.desktop = "desktop"
detected_via_text DetectedVia.pe = "pe"
detected_via_text DetectedVia.gog = "gog"
detected_via_text DetectedVia.heroic = "heroic"
detected_via_text DetectedVia.lutris = "lutris"
detected_via_text DetectedVia.steam = "steam"

unfoldable pub launcher_type_beq : LauncherType → LauncherType → Bool
launcher_type_beq LauncherType.steam LauncherType.steam = true
launcher_type_beq LauncherType.lutris LauncherType.lutris = true
launcher_type_beq LauncherType.heroic LauncherType.heroic = true
launcher_type_beq LauncherType.flatpak LauncherType.flatpak = true
launcher_type_beq LauncherType.native LauncherType.native = true
launcher_type_beq _ _ = false

pub launcher_type_beq_iff : (a b : LauncherType) → (launcher_type_beq a b ≡ true) ↔ (a ≡ b)
unfolding launcher_type_beq
launcher_type_beq_iff a b = ground arith

-- The natural key of a tracked application.
pub record GameKey : Type 0 where
  pub launcher_type : LauncherType
  pub launcher_id : String

-- The derived `PartialEq`.
unfoldable pub key_beq : GameKey → GameKey → Bool
unfolding launcher_type_beq
key_beq k j = launcher_type_beq k.launcher_type j.launcher_type && k.launcher_id == j.launcher_id

pub key_beq_iff : (k j : GameKey) → (key_beq k j ≡ true) ↔ (k ≡ j)
unfolding key_beq
key_beq_iff k j = ground (
  arith,
  launcher_type_beq_iff k.launcher_type j.launcher_type,
  string_eq.beq_iff k.launcher_id j.launcher_id,
)

instance abbrev pub key_eq : Eq GameKey
key_eq = record { beq = key_beq; beq_iff = key_beq_iff }

-- `GameKey::steam` and its siblings.
abbrev pub steam_key : String → GameKey
steam_key appid = record { launcher_type = LauncherType.steam; launcher_id = appid }

abbrev pub lutris_key : String → GameKey
lutris_key slug = record { launcher_type = LauncherType.lutris; launcher_id = slug }

abbrev pub heroic_key : String → GameKey
heroic_key app_name = record { launcher_type = LauncherType.heroic; launcher_id = app_name }

abbrev pub flatpak_key : String → GameKey
flatpak_key app_id = record { launcher_type = LauncherType.flatpak; launcher_id = app_id }

abbrev pub native_key : String → GameKey
native_key exe_path = record { launcher_type = LauncherType.native; launcher_id = exe_path }

-- A row of `sessions`.
pub record Session : Type 0 where
  pub id : ℕ
  pub application_id : ℕ
  pub started_at : ℕ
  pub ended_at : Option ℕ
  pub heartbeat_at : ℕ
  pub full_runtime_seconds : ℕ
  pub interactive_runtime_seconds : ℕ
  pub exit_reason : Option ExitReason

pub record RuntimeSnapshot : Type 0 where
  pub full_runtime_seconds : ℕ
  pub interactive_runtime_seconds : ℕ
  pub at : ℕ

-- A session row joined with its application.
pub record RecentSession : Type 0 where
  pub id : ℕ
  pub application_id : ℕ
  pub product_name : String
  pub launcher_type : LauncherType
  pub launcher_id : String
  pub started_at : ℕ
  pub ended_at : Option ℕ
  pub full_runtime_seconds : ℕ
  pub interactive_runtime_seconds : ℕ
  pub exit_reason : Option ExitReason

-- The bytes of an icon.
abbrev pub Bytes : Type 0
Bytes = List ℕ

-- A row of `applications`.
pub record Application : Type 0 where
  pub id : ℕ
  pub launcher_type : LauncherType
  pub launcher_id : String
  pub product_name : String
  pub publisher : Option String
  pub version : Option String
  pub executable_path : Option String
  pub launcher_exe_path : Option String
  pub wineprefix_path : Option String
  pub installed_flatpak_ref : Option String
  pub graphics_platform : GraphicsPlatform
  pub process_architecture : ProcessArchitecture
  pub group_id : Option ℕ
  pub detected_via : Option String
  pub icon_16 : Option Bytes
  pub icon_32 : Option Bytes
  pub icon_48 : Option Bytes
  pub icon_256 : Option Bytes
  pub first_seen_at : ℕ
  pub last_played_at : Option ℕ
  pub stat_run_count : ℕ
  pub stat_total_full : ℕ
  pub stat_total_interactive : ℕ
  pub stat_longest_full : ℕ

pub record Icons : Type 0 where
  pub icon_16 : Option Bytes
  pub icon_32 : Option Bytes
  pub icon_48 : Option Bytes
  pub icon_256 : Option Bytes

-- A patch of the enrichment cascade: a field that is `none` leaves the row's value alone.
pub record IdentityUpdate : Type 0 where
  pub product_name : Option String
  pub publisher : Option String
  pub version : Option String
  pub executable_path : Option String
  pub launcher_exe_path : Option String
  pub wineprefix_path : Option String
  pub installed_flatpak_ref : Option String
  pub graphics_platform : Option GraphicsPlatform
  pub process_architecture : Option ProcessArchitecture
  pub group_id : Option ℕ
  pub detected_via : Option DetectedVia
  pub icons : Icons

-- The errors of the core layer that its own logic and its schema's constraints raise. `sql` is a
-- statement that a CHECK, a FOREIGN KEY or the key of `applications` refuses.
pub data Error : Type 0 where
  invariant : String → Error
  open_session_exists : ℕ → Error
  sql : Error

pub data Result {ℓ} (T : Type ℓ) : Type ℓ where
  err : Error → Result T
  ok : T → Result T

pub Result-cases {ℓ} :
    {T : Type ℓ} (r : Result T) → ((t : T) × (r ≡ ok t)) ⊎ ((e : Error) × (r ≡ err e))
Result-cases (ok t) = inl (t, refl)
Result-cases (err e) = inr (e, refl)

-- The `?` operator.
infixl 5 ◌>>=◌
abbrev pub ◌>>=◌ {ℓ κ} : {T : Type ℓ} {U : Type κ} (r : Result T) (rest : T → Result U) → Result U
err e >>= rest = err e
ok t >>= rest = rest t

-- A bind that succeeds had a first part that did.
pub >>=-eq-ok {ℓ κ} :
    {T : Type ℓ} {U : Type κ} (r : Result T) (rest : T → Result U) {u : U}
    → (r >>= rest) ≡ ok u
    → (t : T) × (r ≡ ok t) × (rest t ≡ ok u)
>>=-eq-ok (err e) rest h = cc
>>=-eq-ok (ok t) rest h = (t, refl, h)
