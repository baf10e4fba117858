-- ===== src/Gate/Tests.antt =====
-- The gate on concrete processes.
use Prim.Native.Nat.{zero, suc}
use ludex.Base.{◌≡◌, refl, true, none, some, [], ◌∷◌}
use ludex.Gate.{
  GraphicsLibraries, GateConfig, Proc, AcceptedProcess, LauncherAttribution, Environ, accept,
  no_libraries, default_launcher_env_vars, default_foreground_source_launcher_env_vars,
  decide_from_inputs, decide, has_gamescope_ancestor, is_blocklisted, left_to_steam,
  has_launcher_attribution, resolve_attribution_environ, read_ancestors,
  extract_launcher_attribution,
}
use ludex.Base.Table.{contains, lookup}
use ludex.Text.{file_name, trim}
use ludex.Gate.Reads.{attributing, decide-decide_from_inputs}

abbrev config : GateConfig
config = record {
  blocklist = "firefox" ∷ [];
  gpu_memory_threshold_bytes = 268435456;
  launcher_env_vars = default_launcher_env_vars;
  foreground_source_launcher_env_vars = default_foreground_source_launcher_env_vars;
}

abbrev vulkan : GraphicsLibraries
vulkan = record no_libraries { vulkan = true }

abbrev lutris_environ : Environ
lutris_environ = ("SteamAppId", "0") ∷ ("LUTRIS_GAME_UUID", " 91-af ") ∷ []

abbrev wine : AcceptedProcess
wine = record {
  executable_path = "/usr/bin/wine64-preloader";
  graphics_libraries = vulkan;
  attribution = some (LauncherAttribution.lutris "91-af");
}

-- A process whose parent was started by Lutris.
abbrev proc : Proc
proc = record {
  exe = λ pid. some "/usr/bin/wine64-preloader";
  environ = λ pid. elim pid [
    | zero ↦ none
    | suc n ↦ elim n [ zero ↦ some [] | suc m ↦ some lutris_environ ]
  ];
  maps = λ pid. some vulkan;
  gpu_memory = λ pid. none;
  ancestors = λ pid. 0 ∷ 2 ∷ [];
  comm = λ pid. none;
}

decide-decide_from_inputs_example :
    decide proc config (record { pid = 1; window_is_fullscreen = true })
    ≡ decide_from_inputs
        (some "/usr/bin/wine64-preloader")
        (attributing proc config 1 (some []))
        (some vulkan)
        none
        true
        (has_gamescope_ancestor proc 1)
        config
decide-decide_from_inputs_example =
    decide-decide_from_inputs proc config (record { pid = 1; window_is_fullscreen = true })

wine_accepted : decide proc config (record { pid = 1; window_is_fullscreen = true }) ≡ accept wine
unfolding decide is_blocklisted file_name contains left_to_steam has_launcher_attribution
    resolve_attribution_environ read_ancestors extract_launcher_attribution lookup trim
wine_accepted = refl
