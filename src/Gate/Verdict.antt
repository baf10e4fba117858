-- ===== src/Gate/Verdict.antt =====
-- What the verdict of decide_from_inputs says.
use ludex.Base.{ℕ, ◌≤◌, ◌≡◌, ◌⊎◌, Bool, true, false, Option, none, some, String}
use ludex.Gate.{
  Environ, GraphicsLibraries, GateConfig, AcceptedProcess, any_library, no_libraries,
  is_blocklisted, left_to_steam, attribution_of,
}

-- The libraries found, where gamescope stands in for maps that cannot be read.
abbrev pub Libraries : Option GraphicsLibraries → Bool → GraphicsLibraries → Type 0
Libraries (some found) gamescope libs = found ≡ libs
Libraries none gamescope libs = (gamescope ≡ true) × (no_libraries ≡ libs)

abbrev pub gpu_bytes : Option ℕ → ℕ
gpu_bytes none = 0
gpu_bytes (some bytes) = bytes

-- The heuristic of the module's documentation.
pub record IsGame (exe : String) (environ : Option Environ) (libs : Option GraphicsLibraries)
    (gpu : Option ℕ) (fullscreen gamescope : Bool) (config : GateConfig) (a : AcceptedProcess)
    : Type 0 where
  pub not_blocked : is_blocklisted exe config.blocklist ≡ false
  pub not_steam : left_to_steam environ config ≡ false
  pub libraries : Libraries libs gamescope a.graphics_libraries
  pub graphics : (any_library a.graphics_libraries ≡ true) ⊎ (gamescope ≡ true)
  pub presented :
      (fullscreen ≡ true)
      ⊎ ((gamescope ≡ true) ⊎ (config.gpu_memory_threshold_bytes ≤ gpu_bytes gpu))
  pub path : a.executable_path ≡ exe
  pub attributed : a.attribution ≡ attribution_of environ
