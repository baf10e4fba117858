-- ===== src/Settings/Stored.antt =====
-- crates/ludex-core/src/repo/settings.rs: what a setting holds after it was stored.
use ludex.Base.{
  ℕ, ◌≤◌, ◌≡◌, refl, ap, ◌∙◌, Bool, true, false, String, arith, ◌==◌, string_eq, if◌then◌else◌,
}
use ludex.Base.Table.{insert, lookup-insert}
use ludex.Types.{ok, ◌>>=◌}
use ludex.Text.{u64_max}
use ludex.Settings.{
  Settings, get_raw, set_raw, get_u64, set_u64, get_bool, set_bool, to_text, bool_text,
}
use ludex.Settings.Digits.{parse_u64-to_text, is_empty-to_text}

pub set_u64-ok :
    (key : String) (value : ℕ) (settings : Settings)
    → set_u64 key value settings ≡ ok (insert key (to_text value) settings)
unfolding set_u64 set_raw
set_u64-ok key value settings = rw (is_empty-to_text value) refl

pub set_bool-ok :
    (key : String) (value : Bool) (settings : Settings)
    → set_bool key value settings ≡ ok (insert key (bool_text value) settings)
unfolding set_bool set_raw
set_bool-ok key true settings = refl
set_bool-ok key false settings = refl

-- A table with a number stored under a key.
pub insert-get_u64 :
    (key other : String) (value fallback : ℕ) (settings : Settings)
    → value ≤ u64_max
    → get_u64 other fallback (insert key (to_text value) settings)
      ≡ (if key == other then ok value else get_u64 other fallback settings)
unfolding get_u64 get_raw
insert-get_u64 key other value fallback settings le =
    ground (arith, lookup-insert key other (to_text value) settings, parse_u64-to_text value le)

pub insert-get_bool :
    (key other : String) (value fallback : Bool) (settings : Settings)
    → get_bool other fallback (insert key (bool_text value) settings)
      ≡ (if key == other then ok value else get_bool other fallback settings)
unfolding get_bool get_raw
insert-get_bool key other true fallback settings =
    ground (arith, lookup-insert key other "1" settings)
insert-get_bool key other false fallback settings =
    ground (arith, lookup-insert key other "0" settings)

-- A number of 64 bits that is stored under a key is read back under it, a truth value as well, whatever the fallback,
-- and under every other key both readers answer as before.
pub set-get :
    (key other : String) (value fallback : ℕ) (b b_fallback : Bool) (settings : Settings)
    → value ≤ u64_max
    → ((set_u64 key value settings >>= get_u64 other fallback)
        ≡ (if key == other then ok value else get_u64 other fallback settings))
      × ((set_bool key b settings >>= get_bool other b_fallback)
          ≡ (if key == other then ok b else get_bool other b_fallback settings))
set-get key other value fallback b b_fallback settings le = (
  ap (λ r. r >>= get_u64 other fallback) (set_u64-ok key value settings)
      ∙ insert-get_u64 key other value fallback settings le,
  ap (λ r. r >>= get_bool other b_fallback) (set_bool-ok key b settings)
      ∙ insert-get_bool key other b b_fallback settings,
)
