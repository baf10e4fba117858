-- ===== src/Steam/Tests.antt =====
-- crates/ludex-daemon/src/sources/steam.rs: concrete logs and manifests, and the theorems at them.
use Prim.Native.Nat.{compare}
use Prim.Native.Char.{Char}
use ludex.Base.{
  ℕ, ◌≡◌, refl, arith, true, false, Option, none, some, List, [], ◌∷◌, ◌++◌, String, ltb,
  if◌then◌else◌,
}
use ludex.Text.Ascii.{ascii, encoded, as_char, cons_char}
use ludex.Steam.{Wake, Startup, parse_state_change, poll, run, fresh, consumed}
use ludex.Steam.Trace.{Tracks}
use ludex.Steam.Runs.{run-Tracks}
use ludex.Steam.Passes.{poll-Stalled}

started_parsed :
    parse_state_change
      "[2026-01-02 03:04:05] AppID 440 state changed : Fully Installed,App Running,\n"
    ≡ some ("440", true)
unfolding parse_state_change
started_parsed = refl

stopped_parsed :
    parse_state_change "[x] AppID 440 state changed : Fully Installed,\n" ≡ some ("440", false)
unfolding parse_state_change
stopped_parsed = refl

not_an_appid : parse_state_change "[x] AppID 4a0 state changed : App Running,\n" ≡ none
unfolding parse_state_change
not_an_appid = refl

abbrev log : List ℕ
log = encoded "[1] AppID 440 state changed : Fully Installed,App Running,\n[2] AppID 440 sta"

abbrev grown : List ℕ
grown =
    encoded
      "[1] AppID 440 state changed : Fully Installed,App Running,\n[2] AppID 440 state changed : Fully Installed,\n"

abbrev startup : Startup
startup = record { procs = none; libraries = none ∷ some [] ∷ []; log_length = none; at = 5 }

abbrev wakes : List Wake
wakes =
    record { manifests = λ appid. none ∷ []; log = some log; at = 7 }
    ∷ record { manifests = λ appid. []; log = some grown; at = 9 }
    ∷ []

run-Tracks_example : Tracks [] (run ascii startup wakes).sent (run ascii startup wakes).running
run-Tracks_example = run-Tracks ascii startup wakes

-- A line with a byte that is no ASCII.
abbrev latin : List ℕ
latin = 233 ∷ b'\n' ∷ []

refused :
    (c : Option Char) (s t : Option String)
    → (s ≡ none → t ≡ none)
    → cons_char c s ≡ none
    → cons_char c t ≡ none
refused none s t h e = refl
refused (some c) none t h e = rw (h refl) refl
refused (some c) (some s) t h e = cc

ascii-refuses : (bytes more : List ℕ) → ascii bytes ≡ none → ascii (bytes ++ more) ≡ none
unfolding ascii
ascii-refuses [] more e = cc
ascii-refuses (b ∷ bytes) more e =
    refused (if ltb b 128 then as_char b (compare b 55296) refl else none) (ascii bytes)
      (ascii (bytes ++ more)) (ascii-refuses bytes more) e

poll-Stalled_example :
    poll ascii
      (record { manifests = λ appid. []; log = some (65 ∷ b'\n' ∷ latin ++ log); at = 7 } ∷ [])
      (2, fresh)
    ≡ (2, fresh)
unfolding consumed ascii
poll-Stalled_example =
    poll-Stalled ascii (65 ∷ b'\n' ∷ []) latin refl (omega arith) (omega arith)
      (λ bytes more terminated e. ascii-refuses bytes more e) refl
      (record { manifests = λ appid. []; log = some (65 ∷ b'\n' ∷ latin ++ log); at = 7 } ∷ [])
      fresh ((log, refl), tt)
