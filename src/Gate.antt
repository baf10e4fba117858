-- ===== src/Gate.antt =====
-- crates/ludex-daemon/src/gate.rs: is a foreground process a game? What the gate reads of /proc
-- comes in the record `Proc`. A path is its text, an environment is a
-- table, a set of names a list.
pub mod Verdict
pub mod Reads
mod Tests
use ludex.Base.{
  ℕ, Bool, true, false, not, ◌&&◌, ◌||◌, Option, none, some, List, [], ◌∷◌, String, any, ltb, Eq,
  ◌==◌, string_eq, nat_eq, if◌then◌else◌,
}
use ludex.Base.Table.{Table, lookup, contains}
use ludex.Text.{trim, is_empty, parse_u64, file_name}

abbrev pub Environ : Type 0
Environ = Table String String

-- `proc::maps::GraphicsLibraries`.
pub record GraphicsLibraries : Type 0 where
  pub opengl : Bool
  pub vulkan : Bool
  pub sdl : Bool
  pub directx_via_proton : Bool

abbrev pub any_library : GraphicsLibraries → Bool
any_library l = l.opengl || l.vulkan || l.sdl || l.directx_via_proton

abbrev pub no_libraries : GraphicsLibraries
no_libraries = record { opengl = false; vulkan = false; sdl = false; directx_via_proton = false }

pub record GateConfig : Type 0 where
  pub blocklist : List String
  pub gpu_memory_threshold_bytes : ℕ
  pub launcher_env_vars : List String
  pub foreground_source_launcher_env_vars : List String

abbrev pub default_launcher_env_vars : List String
default_launcher_env_vars = "SteamAppId" ∷ "STEAM_COMPAT_APP_ID" ∷ []

abbrev pub default_foreground_source_launcher_env_vars : List String
default_foreground_source_launcher_env_vars = "LUTRIS_GAME_UUID" ∷ "HEROIC_APP_NAME" ∷ []

abbrev pub gamescope_comms : List String
gamescope_comms = "gamescope" ∷ "gamescope-wl" ∷ []

pub data LauncherAttribution : Type 0 where
  heroic : String → LauncherAttribution
  lutris : String → LauncherAttribution

pub record AcceptedProcess : Type 0 where
  pub executable_path : String
  pub graphics_libraries : GraphicsLibraries
  pub attribution : Option LauncherAttribution

pub data RejectionReason : Type 0 where
  exe_unreadable blocklisted attributed_to_launcher : RejectionReason
  maps_unreadable no_graphics_library not_fullscreen_and_low_gpu : RejectionReason

pub data GateDecision : Type 0 where
  accept : AcceptedProcess → GateDecision
  reject : RejectionReason → GateDecision

abbrev pub listed_name : Option String → List String → Bool
listed_name none blocklist = false
listed_name (some name) blocklist = contains blocklist name

pub is_blocklisted : String → List String → Bool
is_blocklisted exe blocklist = listed_name (file_name exe) blocklist

abbrev pub has_key : List String → Environ → Bool
has_key names env = any (λ entry. contains names entry.0) env

abbrev pub is_nonzero : Option ℕ → Bool
is_nonzero none = false
is_nonzero (some n) = not (n == 0)

-- The value of one variable, where it is there and its trimmed text is a `u64`.
abbrev pub appid_of : Option String → Option ℕ
appid_of none = none
appid_of (some v) = parse_u64 (trim v)

pub attributed_to_steam : Environ → GateConfig → Bool
attributed_to_steam env config =
    any (λ key. is_nonzero (appid_of (lookup key env))) config.launcher_env_vars

pub has_launcher_attribution : Environ → GateConfig → Bool
has_launcher_attribution env config =
    any
      (λ entry.
        contains config.launcher_env_vars entry.0
        || contains config.foreground_source_launcher_env_vars entry.0)
      env

-- An id that is not blank.
abbrev pub named {ℓ} : {A : Type ℓ} → (String → A) → Option String → Option A
named f none = none
named f (some v) = if is_empty (trim v) then none else some (f (trim v))

abbrev pub or_else {ℓ} : {A : Type ℓ} → Option A → Option A → Option A
or_else none b = b
or_else (some a) b = some a

pub extract_launcher_attribution : Environ → Option LauncherAttribution
extract_launcher_attribution env =
    or_else (named LauncherAttribution.heroic (lookup "HEROIC_APP_NAME" env))
      (named LauncherAttribution.lutris (lookup "LUTRIS_GAME_UUID" env))

-- The first of the ancestors' environments that carries an attribution, or `own`.
pub first_attributed : Environ → List Environ → GateConfig → Environ
first_attributed own [] config = own
first_attributed own (env ∷ ancestors) config =
    let rest = first_attributed own ancestors config in
    if has_launcher_attribution env config then env else rest

pub resolve_attribution_environ : Environ → List Environ → GateConfig → Environ
unfolding first_attributed
resolve_attribution_environ own ancestors config =
    if has_launcher_attribution own config then own else first_attributed own ancestors config

-- Steam's own source tracks the process: a Steam variable with an appid, and no launcher of the
-- foreground source.
pub left_to_steam : Option Environ → GateConfig → Bool
left_to_steam none config = false
left_to_steam (some env) config =
    not (has_key config.foreground_source_launcher_env_vars env) && attributed_to_steam env config

abbrev pub attribution_of : Option Environ → Option LauncherAttribution
attribution_of none = none
attribution_of (some env) = extract_launcher_attribution env

-- The end of `decide_from_inputs`, with the libraries that it goes on with.
abbrev pub decide_libraries :
    String → Option Environ → GraphicsLibraries → Option ℕ → Bool → Bool → GateConfig → GateDecision
decide_libraries exe environ libs gpu fullscreen gamescope config =
    if not (any_library libs) && not gamescope
    then reject RejectionReason.no_graphics_library
    else if not (fullscreen || gamescope) && ltb (memory gpu) config.gpu_memory_threshold_bytes
    then reject RejectionReason.not_fullscreen_and_low_gpu
    else accept (record {
      executable_path = exe;
      graphics_libraries = libs;
      attribution = attribution_of environ;
    })
  where
    memory : Option ℕ → ℕ
    memory none = 0
    memory (some bytes) = bytes

abbrev pub decide_maps :
    String
    → Option Environ
    → Option GraphicsLibraries
    → Option ℕ
    → Bool
    → Bool
    → GateConfig
    → GateDecision
decide_maps exe environ (some libs) gpu fullscreen gamescope config =
    decide_libraries exe environ libs gpu fullscreen gamescope config
decide_maps exe environ none gpu fullscreen gamescope config =
    if gamescope
    then decide_libraries exe environ no_libraries gpu fullscreen gamescope config
    else reject RejectionReason.maps_unreadable

-- `gpu` is the memory of the summary that `fdinfo` gives.
pub decide_from_inputs :
    Option String
    → Option Environ
    → Option GraphicsLibraries
    → Option ℕ
    → Bool
    → Bool
    → GateConfig
    → GateDecision
decide_from_inputs none environ libs gpu fullscreen gamescope config =
    reject RejectionReason.exe_unreadable
decide_from_inputs (some exe) environ libs gpu fullscreen gamescope config =
    if is_blocklisted exe config.blocklist
    then reject RejectionReason.blocklisted
    else if left_to_steam environ config
    then reject RejectionReason.attributed_to_launcher
    else decide_maps exe environ libs gpu fullscreen gamescope config

pub record GateInput : Type 0 where
  pub pid : ℕ
  pub window_is_fullscreen : Bool

-- What /proc holds while one decision is made; `none` is a read that fails. `ancestors` are those
-- of `tree::ancestors`, nearest first.
pub record Proc : Type 0 where
  pub exe : ℕ → Option String
  pub environ : ℕ → Option Environ
  pub maps : ℕ → Option GraphicsLibraries
  pub gpu_memory : ℕ → Option ℕ
  pub ancestors : ℕ → List ℕ
  pub comm : ℕ → Option String

abbrev pub is_comm : Option String → Bool
is_comm none = false
is_comm (some c) = contains gamescope_comms c

pub has_gamescope_ancestor : Proc → ℕ → Bool
has_gamescope_ancestor proc pid = any (λ p. is_comm (proc.comm p)) (proc.ancestors pid)

-- The loop over the ancestors: the environments read, up to the first that carries an attribution.
pub read_ancestors : Proc → GateConfig → List ℕ → List Environ
read_ancestors proc config [] = []
read_ancestors proc config (p ∷ pids) = elim (proc.environ p) [
  | none ↦ read_ancestors proc config pids
  | some env ↦
      let rest = read_ancestors proc config pids in
      if has_launcher_attribution env config then env ∷ [] else env ∷ rest
]

abbrev pub resolve_environ : Proc → GateConfig → ℕ → Option Environ → Option Environ
resolve_environ proc config pid none = none
resolve_environ proc config pid (some own) =
    if has_launcher_attribution own config
    then some own
    else some
        (resolve_attribution_environ own (read_ancestors proc config (proc.ancestors pid)) config)

-- The rest of `Gate::decide`, once the executable is known not to be blocklisted.
abbrev pub decide_process : Proc → GateConfig → GateInput → String → Option Environ → GateDecision
decide_process proc config input exe env =
    if left_to_steam env config
    then reject RejectionReason.attributed_to_launcher
    else let gamescope = has_gamescope_ancestor proc input.pid in
      let gpu =
        if input.window_is_fullscreen || gamescope then none else proc.gpu_memory input.pid in
      decide_from_inputs (some exe) env (proc.maps input.pid) gpu input.window_is_fullscreen
        gamescope config

abbrev pub decide_exe : Proc → GateConfig → GateInput → Option String → GateDecision
decide_exe proc config input none = reject RejectionReason.exe_unreadable
decide_exe proc config input (some exe) =
    if is_blocklisted exe config.blocklist
    then reject RejectionReason.blocklisted
    else decide_process proc config input exe
        (resolve_environ proc config input.pid (proc.environ input.pid))

-- `Gate::decide`.
pub decide : Proc → GateConfig → GateInput → GateDecision
unfolding decide_from_inputs
decide proc config input = decide_exe proc config input (proc.exe input.pid)
