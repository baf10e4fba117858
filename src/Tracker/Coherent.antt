-- ===== src/Tracker/Coherent.antt =====
-- crates/ludex-daemon/src/dbus.rs: the configuration and the blocklist in memory against those of the database.
use ludex.Base.{
  ℕ, ◌≤◌, ◌≡◌, refl, sym, ap, ◌∙◌, max, Bool, false, not, ◌||◌, ◌&&◌, Option, none, some, List, [],
  ◌∷◌, String, arith, ◌==◌, string_eq,
}
use ludex.Base.Table.{contains, contains_key, insert}
use ludex.Types.{Application, GameKey, key_eq, Result, ok, err, ◌>>=◌}
use ludex.Text.{u64_max}
use ludex.Settings.{
  Settings, to_text, set_u64, gpu_memory_threshold_key, alt_tab_grace_seconds_key,
  pause_when_backgrounded_key, idle_grace_seconds_key, backup_interval_hours_key,
  backup_retention_count_key,
}
use ludex.Settings.Stored.{set_u64-ok, set_bool-ok}
use ludex.Store.Edits.{find_application}
use mathlib.Core.Path.{subst}
use ludex.Tracker.Reload.{with_u64, resolve-stored, resolve-paused, with_pause}
use ludex.Tracker.Blocking.{
  contains-include, contains-exclude, inserted-contains, removed-contains, listed-contains,
}
use ludex.Tracker.{
  Tracker, Blocked, resolve_tracker_config, start, set_gpu_memory_threshold_bytes,
  set_alt_tab_grace_seconds, set_pause_when_backgrounded, set_idle_grace_seconds,
  set_backup_interval_hours, set_backup_retention_count, block_application, unblock_application,
  game_key_of, block_found, unblock_found,
}

-- A request that changes the state, with the time at which it is served; a number of a request is a `u64`.
pub data Request : Type 0 where
  gpu_memory_threshold : (bytes : ℕ) → bytes ≤ u64_max → Request
  alt_tab_grace : (seconds : ℕ) → seconds ≤ u64_max → Request
  pause : Bool → Request
  idle_grace : (seconds : ℕ) → seconds ≤ u64_max → Request
  backup_interval : (hours : ℕ) → hours ≤ u64_max → Request
  backup_retention : (count : ℕ) → count ≤ u64_max → Request
  block : (id at : ℕ) → Request
  unblock : (id : ℕ) → Request

abbrev pub answer : Request → Tracker → Result Tracker
answer (Request.gpu_memory_threshold bytes u64) t = set_gpu_memory_threshold_bytes bytes t
answer (Request.alt_tab_grace seconds u64) t = set_alt_tab_grace_seconds seconds t
answer (Request.pause p) t = set_pause_when_backgrounded p t
answer (Request.idle_grace seconds u64) t = set_idle_grace_seconds seconds t
answer (Request.backup_interval hours u64) t = set_backup_interval_hours hours t
answer (Request.backup_retention count u64) t = set_backup_retention_count count t
answer (Request.block id at) t = block_application id at t
answer (Request.unblock id) t = unblock_application id t

-- A request that fails leaves the state as it was.
abbrev pub settled : Tracker → Result Tracker → Tracker
settled t (err e) = t
settled t (ok next) = next

pub serve_all : List Request → Tracker → Tracker
serve_all [] t = t
serve_all (r ∷ requests) t = serve_all requests (settled t (answer r t))

-- What is in memory is what a restart would read.
pub record IsCoherent (t : Tracker) : Type 0 where
  pub config : t.config ≡ resolve_tracker_config t.settings
  pub blocklist : (key : GameKey) → contains t.blocklist key ≡ contains_key key t.blocked

-- A state after a number was stored and the configuration changed.
stored-IsCoherent :
    (key : String) (value : ℕ) (t : Tracker)
    → value ≤ u64_max
    → (key == pause_when_backgrounded_key) ≡ false
    → IsCoherent t
    → IsCoherent (record t {
      settings = insert key (to_text value) t.settings;
      config = with_u64 key value t.config;
    })
stored-IsCoherent key value t le apart h = record {
  config = ap (with_u64 key value) h.config ∙ sym (resolve-stored key value t.settings le apart);
  blocklist = h.blocklist;
}

store-IsCoherent :
    (key : String) (value : ℕ) (t : Tracker)
    → value ≤ u64_max
    → (key == pause_when_backgrounded_key) ≡ false
    → IsCoherent t
    → IsCoherent (
        settled t (
          set_u64 key value t.settings >>= λ settings.
          ok (record t { settings = settings; config = with_u64 key value t.config })))
store-IsCoherent key value t le apart h =
    subst
      (λ r. IsCoherent (
        settled t (
          r >>= λ settings.
          ok (record t { settings = settings; config = with_u64 key value t.config }))))
      (sym (set_u64-ok key value t.settings)) (stored-IsCoherent key value t le apart h)

pause-IsCoherent :
    (paused : Bool) (t : Tracker)
    → IsCoherent t
    → IsCoherent (settled t (set_pause_when_backgrounded paused t))
unfolding set_pause_when_backgrounded
pause-IsCoherent paused t h =
    rw (set_bool-ok pause_when_backgrounded_key paused t.settings) (record {
      config = ap (with_pause paused) h.config ∙ sym (resolve-paused paused t.settings);
      blocklist = h.blocklist;
    })

block-IsCoherent :
    (found : Option Application) (at : ℕ) (t : Tracker)
    → IsCoherent t
    → IsCoherent (settled t (block_found found at t))
block-IsCoherent none at t h = h
block-IsCoherent (some app) at t h = record {
  config = h.config;
  blocklist = λ key.
      contains-include (game_key_of app) key t.blocklist
      ∙ ap (λ b. game_key_of app == key || b) (h.blocklist key)
      ∙ sym (inserted-contains (game_key_of app) key at t.blocked);
}

unblock-IsCoherent :
    (found : Option Application) (t : Tracker)
    → IsCoherent t
    → IsCoherent (settled t (unblock_found found t))
unblock-IsCoherent none t h = h
unblock-IsCoherent (some app) t h = record {
  config = h.config;
  blocklist = λ key.
      contains-exclude (game_key_of app) key t.blocklist
      ∙ ap (λ b. not (game_key_of app == key) && b) (h.blocklist key)
      ∙ sym (removed-contains (game_key_of app) key t.blocked);
}

floor-u64 : (least value : ℕ) → least ≤ u64_max → value ≤ u64_max → max value least ≤ u64_max
floor-u64 least value a b = omega arith

answer-IsCoherent : (r : Request) (t : Tracker) → IsCoherent t → IsCoherent (settled t (answer r t))
unfolding set_gpu_memory_threshold_bytes set_alt_tab_grace_seconds set_idle_grace_seconds
    set_backup_interval_hours set_backup_retention_count block_application unblock_application
answer-IsCoherent (Request.gpu_memory_threshold bytes u64) t h =
    store-IsCoherent gpu_memory_threshold_key bytes t u64 refl h
answer-IsCoherent (Request.alt_tab_grace seconds u64) t h =
    store-IsCoherent alt_tab_grace_seconds_key seconds t u64 refl h
answer-IsCoherent (Request.pause p) t h = pause-IsCoherent p t h
answer-IsCoherent (Request.idle_grace seconds u64) t h =
    store-IsCoherent idle_grace_seconds_key seconds t u64 refl h
answer-IsCoherent (Request.backup_interval hours u64) t h =
    store-IsCoherent backup_interval_hours_key (max hours 1) t (floor-u64 1 hours (omega arith) u64)
      refl h
answer-IsCoherent (Request.backup_retention count u64) t h =
    store-IsCoherent backup_retention_count_key (max count 1) t
      (floor-u64 1 count (omega arith) u64) refl h
answer-IsCoherent (Request.block id at) t h =
    block-IsCoherent (find_application id t.applications) at t h
answer-IsCoherent (Request.unblock id) t h =
    unblock-IsCoherent (find_application id t.applications) t h

serve_all-kept :
    (requests : List Request) (t : Tracker) → IsCoherent t → IsCoherent (serve_all requests t)
unfolding serve_all
serve_all-kept [] t h = h
serve_all-kept (r ∷ requests) t h =
    serve_all-kept requests (settled t (answer r t)) (answer-IsCoherent r t h)

-- After any requests that the service answers from the start on, those that fail included, the configuration in memory
-- is what a restart would read from the settings, and the blocklist in memory has the keys that the table has.
pub serve_all-IsCoherent :
    (applications : List Application) (settings : Settings) (blocked : Blocked)
    (requests : List Request)
    → IsCoherent (serve_all requests (start applications settings blocked))
unfolding start
serve_all-IsCoherent applications settings blocked requests =
    serve_all-kept requests (start applications settings blocked)
      (record { config = refl; blocklist = λ key. listed-contains key blocked })
