-- ===== src/Settings.antt =====
-- crates/ludex-core/src/repo/settings.rs: the table of settings, and their values as texts.
pub mod Digits
pub mod Stored
use ludex.Base.{
  ℕ, zero, suc, ◌*◌, ◌<◌, Bool, true, false, Option, none, some, String, ltb, Eq, ◌==◌, string_eq,
  if◌then◌else◌,
}
use Prim.Native.Nat.{◌/◌, ◌%◌}
use Prim.Native.Char.{Char}
use ludex.Base.Table.{Table, lookup, insert, remove, contains_key}
use ludex.Types.{Result, ok, err, Error, ◌>>=◌}
use ludex.Text.{is_empty, parse_u64}
use ludex.Text.Search.{◌+++◌}

abbrev pub Settings : Type 0
Settings = Table String String

abbrev pub gpu_memory_threshold_key : String
gpu_memory_threshold_key = "gpu_memory_threshold_bytes"

abbrev pub default_gpu_memory_threshold_bytes : ℕ
default_gpu_memory_threshold_bytes = 52428800

abbrev pub backup_interval_hours_key : String
backup_interval_hours_key = "backup_interval_hours"

abbrev pub default_backup_interval_hours : ℕ
default_backup_interval_hours = 24

abbrev pub backup_retention_count_key : String
backup_retention_count_key = "backup_retention_count"

abbrev pub default_backup_retention_count : ℕ
default_backup_retention_count = 14

abbrev pub alt_tab_grace_seconds_key : String
alt_tab_grace_seconds_key = "alt_tab_grace_seconds"

abbrev pub default_alt_tab_grace_seconds : ℕ
default_alt_tab_grace_seconds = 15

abbrev pub pause_when_backgrounded_key : String
pause_when_backgrounded_key = "pause_when_backgrounded"

abbrev pub default_pause_when_backgrounded : Bool
default_pause_when_backgrounded = true

abbrev pub idle_grace_seconds_key : String
idle_grace_seconds_key = "idle_grace_seconds"

abbrev pub default_idle_grace_seconds : ℕ
default_idle_grace_seconds = 180

-- `get_raw`.
unfoldable pub get_raw : String → Settings → Option String
unfolding lookup
get_raw key settings = lookup key settings

-- `set_raw`.
unfoldable pub set_raw : String → String → Settings → Result Settings
unfolding insert
set_raw key value settings =
    if is_empty value
    then err (Error.invariant "settings value must not be empty")
    else ok (insert key value settings)

-- `remove`, and whether there was a row.
pub remove_setting : String → Settings → Bool × Settings
unfolding contains_key remove
remove_setting key settings = (contains_key key settings, remove key settings)

abbrev pub parsed_u64 : Option ℕ → Result ℕ
parsed_u64 none = err (Error.invariant "settings value is not a valid u64")
parsed_u64 (some n) = ok n

abbrev pub u64_or : ℕ → Option String → Result ℕ
u64_or fallback none = ok fallback
u64_or fallback (some s) = parsed_u64 (parse_u64 s)

-- `get_u64`.
unfoldable pub get_u64 : String → ℕ → Settings → Result ℕ
unfolding get_raw parse_u64
get_u64 key fallback settings = u64_or fallback (get_raw key settings)

abbrev pub digit : ℕ → Char
digit zero = "0"
digit (suc zero) = "1"
digit (suc (suc zero)) = "2"
digit (suc (suc (suc zero))) = "3"
digit (suc (suc (suc (suc zero)))) = "4"
digit (suc (suc (suc (suc (suc zero))))) = "5"
digit (suc (suc (suc (suc (suc (suc zero)))))) = "6"
digit (suc (suc (suc (suc (suc (suc (suc zero))))))) = "7"
digit (suc (suc (suc (suc (suc (suc (suc (suc zero)))))))) = "8"
digit _ = "9"

-- The decimal digits of a number that has at most one digit more than the fuel.
unfoldable pub digits_of : ℕ → ℕ → String
unfolding ◌+++◌
digits_of zero n = String.◌∷◌ (digit (n % 10)) String.[]
digits_of (suc fuel) n =
    let head = digits_of fuel (n / 10) in
    if ltb n 10
    then String.◌∷◌ (digit (n % 10)) String.[]
    else head +++ String.◌∷◌ (digit (n % 10)) String.[]

-- `u64::to_string`: a `u64` has at most twenty digits.
unfoldable pub to_text : ℕ → String
unfolding digits_of
to_text n = digits_of 19 n

-- `set_u64`.
unfoldable pub set_u64 : String → ℕ → Settings → Result Settings
unfolding set_raw to_text
set_u64 key value settings = set_raw key (to_text value) settings

abbrev pub parsed_bool : String → Result Bool
parsed_bool s =
    if s == "1"
    then ok true
    else if s == "true"
    then ok true
    else if s == "0"
    then ok false
    else if s == "false"
    then ok false
    else err (Error.invariant "settings value is not a valid bool")

abbrev pub bool_or : Bool → Option String → Result Bool
bool_or fallback none = ok fallback
bool_or fallback (some s) = parsed_bool s

-- `get_bool`.
unfoldable pub get_bool : String → Bool → Settings → Result Bool
unfolding get_raw
get_bool key fallback settings = bool_or fallback (get_raw key settings)

abbrev pub bool_text : Bool → String
bool_text value = if value then "1" else "0"

-- `set_bool`.
unfoldable pub set_bool : String → Bool → Settings → Result Settings
unfolding set_raw
set_bool key value settings = set_raw key (bool_text value) settings
