-- ===== src/Gate/Reads.antt =====
-- crates/ludex-daemon/src/gate.rs, `Gate::decide`: the order of the reads of /proc, and the reads that are left
-- out, change nothing of the verdict.
use ludex.Base.{
  ℕ, ◌≡◌, refl, Bool, true, false, ◌||◌, Option, none, some, List, [], ◌∷◌, String, arith,
  if◌then◌else◌, Option-cases, inl, inr,
}
use ludex.Gate.{
  Environ, GraphicsLibraries, GateConfig, GateInput, Proc, first_attributed,
  resolve_attribution_environ, decide_from_inputs, decide_maps, decide_libraries,
  has_gamescope_ancestor, read_ancestors, resolve_environ, decide,
}

-- Every environment of the ancestors that can be read.
readable : Proc → List ℕ → List Environ
readable proc [] = []
readable proc (p ∷ pids) = elim (proc.environ p) [
  | none ↦ readable proc pids
  | some env ↦ env ∷ readable proc pids
]

-- The environment that attributes the process: its own, or the first of all its ancestors'.
pub attributing : Proc → GateConfig → ℕ → Option Environ → Option Environ
attributing proc config pid none = none
attributing proc config pid (some own) =
    some (resolve_attribution_environ own (readable proc (proc.ancestors pid)) config)

first_attributed-read :
    (proc : Proc) (config : GateConfig) (own : Environ) (pids : List ℕ)
    → first_attributed own (read_ancestors proc config pids) config
      ≡ first_attributed own (readable proc pids) config
unfolding first_attributed read_ancestors readable
first_attributed-read proc config own [] = refl
first_attributed-read proc config own (p ∷ pids) =
    let ih = first_attributed-read proc config own pids in ground (arith, ih)

resolve_environ-all :
    (proc : Proc) (config : GateConfig) (pid : ℕ) (env : Option Environ)
    → resolve_environ proc config pid env ≡ attributing proc config pid env
unfolding resolve_attribution_environ attributing
resolve_environ-all proc config pid none = refl
resolve_environ-all proc config pid (some own) =
    ground (arith, first_attributed-read proc config own (proc.ancestors pid))

unread_gpu :
    (exe : String) (environ : Option Environ) (libs : GraphicsLibraries) (gpu : Option ℕ)
    (fullscreen gamescope : Bool) (config : GateConfig)
    → decide_libraries exe environ libs
        (if fullscreen || gamescope then none else gpu)
        fullscreen
        gamescope
        config
      ≡ decide_libraries exe environ libs gpu fullscreen gamescope config
unread_gpu exe environ libs gpu true gamescope config = refl
unread_gpu exe environ libs gpu false true config = refl
unread_gpu exe environ libs gpu false false config = refl

unread_gpu_maps :
    (exe : String) (environ : Option Environ) (libs : Option GraphicsLibraries) (gpu : Option ℕ)
    (fullscreen gamescope : Bool) (config : GateConfig)
    → decide_maps exe environ libs
        (if fullscreen || gamescope then none else gpu)
        fullscreen
        gamescope
        config
      ≡ decide_maps exe environ libs gpu fullscreen gamescope config
unread_gpu_maps exe environ (some libs) gpu fullscreen gamescope config =
    unread_gpu exe environ libs gpu fullscreen gamescope config
unread_gpu_maps exe environ none gpu true true config = refl
unread_gpu_maps exe environ none gpu false true config = refl
unread_gpu_maps exe environ none gpu fullscreen false config = refl

-- The gate, which reads as little of /proc as it needs, decides as if it had read everything: the
-- verdict is that of `decide_from_inputs` on the executable, the maps and the GPU memory of the
-- process, the environment attributed to it by itself and all its readable ancestors, and the presence of
-- gamescope among them.
pub decide-decide_from_inputs :
    (proc : Proc) (config : GateConfig) (input : GateInput)
    → decide proc config input
      ≡ decide_from_inputs
          (proc.exe input.pid)
          (attributing proc config input.pid (proc.environ input.pid))
          (proc.maps input.pid)
          (proc.gpu_memory input.pid)
          input.window_is_fullscreen
          (has_gamescope_ancestor proc input.pid)
          config
unfolding decide decide_from_inputs
decide-decide_from_inputs proc config input = elim (Option-cases (proc.exe input.pid)) [
  | inl e ↦ rw e refl
  | inr (exe, e) ↦
      rw (e, resolve_environ-all proc config input.pid (proc.environ input.pid), unread_gpu_maps)
        (ground arith)
]
