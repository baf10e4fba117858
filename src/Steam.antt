-- ===== src/Steam.antt =====
-- crates/ludex-daemon/src/sources/steam.rs: the source that follows Steam's content log. The files that it reads
-- and the processes that it sees come as arguments, the decoder of UTF-8 as a parameter.
pub mod Trace
pub mod Passes
pub mod Runs
mod Tests
use ludex.Base.{
  ℕ, ◌+◌, ◌-◌, min, Bool, true, false, not, ◌&&◌, ◌||◌, Option, none, some, List, [], ◌∷◌, ◌++◌,
  String, any, map, length, drop, take, Eq, ◌==◌, nat_eq, string_eq, nat_beq, ltb, if◌then◌else◌,
}
use Prim.Native.Nat.{◌/◌, ◌%◌}
use ludex.Base.Table.{Table, lookup, contains}
use ludex.Types.{steam_key}
use ludex.Text.{trim, is_empty, all_digits, split}
use ludex.Gate.{Environ}
use ludex.Vdf.{parse_top_level_string, parse_top_level_u64}
use ludex.Text.Search.{
  ◌+++◌, strip_suffix, strip_prefix, after, split_once, trim_end_matches, split_inclusive,
}
use ludex.Manager.{GameEvent}

abbrev pub is_appid : String → Bool
is_appid s = all_digits s && not (is_empty s)

abbrev pub has_running_flag : String → Bool
has_running_flag flags =
    any (λ f. trim f == "App Running") (split b',' (trim_end_matches b'\n' flags))

abbrev pub with_flags : String → Option String → Option (String × Bool)
with_flags appid none = none
with_flags appid (some flags) = some (appid, has_running_flag flags)

abbrev pub with_appid : Option (String × String) → Option (String × Bool)
with_appid none = none
with_appid (some (appid, rest)) =
    if is_appid appid then with_flags appid (strip_prefix "state changed : " rest) else none

abbrev pub with_rest : Option String → Option (String × Bool)
with_rest none = none
with_rest (some rest) = with_appid (split_once b' ' rest)

pub parse_state_change : String → Option (String × Bool)
unfolding after split_once strip_prefix split trim trim_end_matches all_digits
parse_state_change line = with_rest (after "] AppID " line)

-- The set `running`, and the events sent, in their order.
pub record Source : Type 0 where
  pub running : List String
  pub sent : List GameEvent

abbrev pub started_game : String → String → ℕ → GameEvent
started_game appid display_name at = GameEvent.started (steam_key appid) display_name none at

abbrev pub removed : String → List String → List String
removed appid [] = []
removed appid (a ∷ set) = if a == appid then removed appid set else a ∷ removed appid set

-- A state change, for a name as `resolve_name` gives it, and the time of the event.
pub change : (String → String) → ℕ → String × Bool → Source → Source
unfolding contains
change resolve_name at (appid, is_running) s =
    if is_running && not (contains s.running appid)
    then record {
      running = appid ∷ s.running;
      sent = s.sent ++ started_game appid (resolve_name appid) at ∷ [];
    }
    else if not is_running && contains s.running appid
    then record {
      running = removed appid s.running;
      sent = s.sent ++ GameEvent.stopped (steam_key appid) at ∷ [];
    }
    else s

abbrev pub changed : (String → String) → ℕ → Option (String × Bool) → Source → Source
changed resolve_name at none s = s
changed resolve_name at (some c) s = change resolve_name at c s

-- The loop of `drain_lines` over the lines of a text.
pub read_lines : (String → String) → ℕ → List String → Source → Source
unfolding change parse_state_change
read_lines resolve_name at [] s = s
read_lines resolve_name at (line ∷ rest) s =
    read_lines resolve_name at rest (changed resolve_name at (parse_state_change line) s)

abbrev pub max_drain_bytes : ℕ
max_drain_bytes = 4194304

-- The place behind the last newline: `rposition` of the byte, and one more.
unfoldable pub consumed : List ℕ → ℕ
consumed [] = 0
consumed (b ∷ bytes) =
    let later = consumed bytes in
    if later == 0 then (if nat_beq b b'\n' then 1 else 0) else 1 + later

abbrev pub Decoder : Type 0
Decoder = List ℕ → Option String

abbrev pub drained : (String → String) → ℕ → Option String → ℕ → ℕ → Source → ℕ × Source
drained resolve_name at none cursor count s = (cursor, s)
drained resolve_name at (some text) cursor count s =
    (cursor + count, read_lines resolve_name at (split_inclusive b'\n' text) s)

-- The bytes that a pass reads from the cursor on.
abbrev pub chunk : List ℕ → ℕ → List ℕ
chunk file cursor = take (min (length file - cursor) max_drain_bytes) (drop cursor file)

abbrev pub rotated : List ℕ → ℕ → ℕ
rotated file cursor = if ltb (length file) cursor then 0 else cursor

abbrev pub drain_from : Decoder → (String → String) → ℕ → List ℕ → ℕ → Source → ℕ × Source
drain_from from_utf8 resolve_name at file cursor s =
    let count = consumed (chunk file cursor) in
    if count == 0
    then (cursor, s)
    else drained resolve_name at (from_utf8 (take count (chunk file cursor))) cursor count s

-- `drain_lines`, of a file that could be read.
pub drain_lines : Decoder → (String → String) → ℕ → List ℕ → ℕ → Source → ℕ × Source
unfolding consumed read_lines split_inclusive
drain_lines from_utf8 resolve_name at file cursor s =
    drain_from from_utf8 resolve_name at file (rotated file cursor) s

-- `drain_or_keep`; `none` is a file that cannot be read.
pub drain_or_keep : Decoder → (String → String) → ℕ → Option (List ℕ) → ℕ × Source → ℕ × Source
unfolding drain_lines
drain_or_keep from_utf8 resolve_name at none (cursor, s) = (cursor, s)
drain_or_keep from_utf8 resolve_name at (some file) (cursor, s) =
    drain_lines from_utf8 resolve_name at file cursor s

-- `resolve_name`: what is read of the appid's manifest in each library.
abbrev pub named : String → List (Option String) → String
named appid [] = "AppID " +++ appid
named appid (none ∷ manifests) = named appid manifests
named appid (some content ∷ manifests) =
    found (parse_top_level_string content "name") (named appid manifests)
  where
    found : Option String → String → String
    found none rest = rest
    found (some name) rest = name

pub resolve_name : (String → List (Option String)) → String → String
unfolding parse_top_level_string ◌+++◌
resolve_name manifests appid = named appid (manifests appid)

-- An entry of /proc, or of a library's directory: `fault` is an error of the enumeration.
pub data ProcEntry : Type 0 where
  fault : ProcEntry
  proc : (pid : Option ℕ) → (environ : Option Environ) → ProcEntry

pub data DirEntry : Type 0 where
  fault : DirEntry
  file : (name : Option String) → (content : Option String) → DirEntry

abbrev pub set_insert : String → List String → List String
set_insert a set = if contains set a then set else a ∷ set

abbrev pub is_real_appid : String → Bool
is_real_appid value = not (value == "0") && not (is_empty value) && all_digits value

abbrev pub add_appid : Option String → List String → List String
add_appid none appids = appids
add_appid (some value) appids = if is_real_appid value then set_insert value appids else appids

abbrev pub add_environ : Environ → List String → List String
add_environ env appids =
    add_appid (lookup "STEAM_COMPAT_APP_ID" env) (add_appid (lookup "SteamAppId" env) appids)

abbrev pub live_of : List ProcEntry → List String → Option (List String)
live_of [] appids = some appids
live_of (ProcEntry.fault ∷ entries) appids = none
live_of (ProcEntry.proc none env ∷ entries) appids = live_of entries appids
live_of (ProcEntry.proc (some pid) none ∷ entries) appids = live_of entries appids
live_of (ProcEntry.proc (some pid) (some env) ∷ entries) appids =
    live_of entries (add_environ env appids)

-- `live_steam_appids`; `none` is a /proc that cannot be read.
pub live_steam_appids : Option (List ProcEntry) → Option (List String)
unfolding lookup contains all_digits
live_steam_appids none = none
live_steam_appids (some entries) = live_of entries []

abbrev pub without_suffix : Option String → Option String
without_suffix none = none
without_suffix (some s) = strip_suffix ".acf" s

abbrev pub flags_running : Option ℕ → Bool
flags_running none = false
flags_running (some flags) = flags / 64 % 2 == 1

abbrev pub is_live : Option (List String) → String → String → Bool
is_live none appid content = flags_running (parse_top_level_u64 content "StateFlags")
is_live (some live) appid content = contains live appid

abbrev pub name_or : String → Option String → String
name_or appid none = "AppID " +++ appid
name_or appid (some name) = name

abbrev pub scan_manifest :
    Option (List String) → ℕ → Option String → Option String → Source → Source
scan_manifest live at none content s = s
scan_manifest live at (some appid) none s = s
scan_manifest live at (some appid) (some content) s =
    if is_appid appid && is_live live appid content && not (contains s.running appid)
    then record {
      running = appid ∷ s.running;
      sent =
          s.sent
          ++ started_game appid (name_or appid (parse_top_level_string content "name")) at ∷ [];
    }
    else s

-- One file of a library: `none` for an appid is a name that is no manifest's.
pub scan_file : Option (List String) → ℕ → Option String → Option String → Source → Source
unfolding contains parse_top_level_string parse_top_level_u64 all_digits strip_prefix strip_suffix
    ◌+++◌
scan_file live at none content s = s
scan_file live at (some name) content s =
    scan_manifest live at (without_suffix (strip_prefix "appmanifest_" name)) content s

-- What a scan has found, and whether an error ended it.
abbrev pub Scanned : Type 0
Scanned = Source × Bool

pub scan_dir : Option (List String) → ℕ → List DirEntry → Source → Scanned
unfolding scan_file
scan_dir live at [] s = (s, false)
scan_dir live at (DirEntry.fault ∷ entries) s = (s, true)
scan_dir live at (DirEntry.file name content ∷ entries) s =
    scan_dir live at entries (scan_file live at name content s)

-- `cold_start_scan_with`, over the libraries; `none` is a directory that cannot be read.
pub cold_start_scan_with :
    Option (List String) → ℕ → List (Option (List DirEntry)) → Source → Scanned
unfolding scan_dir
cold_start_scan_with live at [] s = (s, false)
cold_start_scan_with live at (none ∷ libraries) s = cold_start_scan_with live at libraries s
cold_start_scan_with live at (some entries ∷ libraries) s =
    let (s', failed) = scan_dir live at entries s in
    let rest = cold_start_scan_with live at libraries s' in if failed then (s', true) else rest

-- What the source meets: at its start, and at each wake of its loop.
pub record Startup : Type 0 where
  pub procs : Option (List ProcEntry)
  pub libraries : List (Option (List DirEntry))
  pub log_length : Option ℕ
  pub at : ℕ

pub record Wake : Type 0 where
  pub manifests : String → List (Option String)
  pub log : Option (List ℕ)
  pub at : ℕ

pub poll : Decoder → List Wake → ℕ × Source → ℕ × Source
unfolding drain_or_keep resolve_name
poll from_utf8 [] state = state
poll from_utf8 (w ∷ wakes) state =
    poll from_utf8 wakes (drain_or_keep from_utf8 (resolve_name w.manifests) w.at w.log state)

abbrev pub start_cursor : Option ℕ → ℕ
start_cursor none = 0
start_cursor (some len) = len

abbrev pub fresh : Source
fresh = record { running = []; sent = [] }

-- `run`, until the shutdown: an error of the first scan ends it.
pub run : Decoder → Startup → List Wake → Source
unfolding live_steam_appids cold_start_scan_with poll
run from_utf8 startup wakes =
    let (s, failed) =
      cold_start_scan_with (live_steam_appids startup.procs) startup.at startup.libraries fresh in
    let (cursor, last) = poll from_utf8 wakes (start_cursor startup.log_length, s) in
    if failed then s else last
