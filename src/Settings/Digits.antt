-- ===== src/Settings/Digits.antt =====
-- crates/ludex-core/src/repo/settings.rs, `u64::to_string` and `parse::<u64>`: a number that is printed is read back.
use ludex.Base.{
  ℕ, zero, suc, ◌+◌, ◌*◌, ◌-◌, ◌<◌, ◌≤◌, ◌≡◌, refl, ap, ◌∙◌, Bool, true, false, Option, none, some,
  arith, ltb, Bool-cases, inl, inr, String,
}
use Prim.Native.Nat.{◌/◌, ◌%◌}
use Prim.Native.Char.{code}
use ludex.Text.{is_ascii_digit, all_digits, digits_value, parse_u64, is_empty, u64_max}
use ludex.Text.Search.{◌+++◌}
use ludex.Settings.{digit, digits_of, to_text}

digit-code : (d : ℕ) → d < 10 → code (digit d) ≡ 48 + d
digit-code zero h = refl
digit-code (suc zero) h = refl
digit-code (suc (suc zero)) h = refl
digit-code (suc (suc (suc zero))) h = refl
digit-code (suc (suc (suc (suc zero)))) h = refl
digit-code (suc (suc (suc (suc (suc zero))))) h = refl
digit-code (suc (suc (suc (suc (suc (suc zero)))))) h = refl
digit-code (suc (suc (suc (suc (suc (suc (suc zero))))))) h = refl
digit-code (suc (suc (suc (suc (suc (suc (suc (suc zero)))))))) h = refl
digit-code (suc (suc (suc (suc (suc (suc (suc (suc (suc zero))))))))) h = refl
digit-code (suc (suc (suc (suc (suc (suc (suc (suc (suc (suc d)))))))))) h =
    absurd (omega (arith, h))

abbrev then_value : Option ℕ → String → Option ℕ
then_value none t = none
then_value (some n) t = digits_value n t

digits_value-append :
    (n : ℕ) (s t : String) → digits_value n (s +++ t) ≡ then_value (digits_value n s) t
unfolding digits_value ◌+++◌
digits_value-append n String.[] t = refl
digits_value-append n (String.◌∷◌ c s) t =
    ground (arith, digits_value-append (n * 10 + (code c - 48)) s t)

digits_value-digit :
    (n d : ℕ) → d < 10 → digits_value n (String.◌∷◌ (digit d) String.[]) ≡ some (n * 10 + d)
unfolding digits_value
digits_value-digit n d h = ground (arith, digit-code d h, h)

abbrev power : ℕ → ℕ
power zero = 10
power (suc fuel) = 10 * power fuel

digits_of-value : (fuel n : ℕ) → n < power fuel → digits_value 0 (digits_of fuel n) ≡ some n
unfolding digits_of
digits_of-value zero n h = digits_value-digit 0 (n % 10) (omega arith) ∙ ap some (omega (arith, h))
digits_of-value (suc fuel) n h = elim (Bool-cases (ltb n 10)) [
  | inl small ↦
      rw small (digits_value-digit 0 (n % 10) (omega arith) ∙ ap some (ground (arith, small)))
  | inr large ↦ rw large (
      digits_value-append 0 (digits_of fuel (n / 10)) (String.◌∷◌ (digit (n % 10)) String.[])
      ∙ ap (λ v. then_value v (String.◌∷◌ (digit (n % 10)) String.[]))
          (digits_of-value fuel (n / 10) (omega (arith, h)))
      ∙ digits_value-digit (n / 10) (n % 10) (omega arith)
      ∙ ap some (omega arith))
]

-- The first character of a number is a digit.
abbrev starts_digit : String → Bool
starts_digit String.[] = false
starts_digit (String.◌∷◌ c s) = is_ascii_digit (code c)

starts_digit-append : (s t : String) → starts_digit s ≡ true → starts_digit (s +++ t) ≡ true
unfolding ◌+++◌
starts_digit-append String.[] t h = cc
starts_digit-append (String.◌∷◌ c s) t h = h

starts_digit-digits_of : (fuel n : ℕ) → starts_digit (digits_of fuel n) ≡ true
unfolding digits_of
starts_digit-digits_of zero n = ground (arith, digit-code (n % 10) (omega arith))
starts_digit-digits_of (suc fuel) n = elim (Bool-cases (ltb n 10)) [
  | inl small ↦ rw small (ground (arith, digit-code (n % 10) (omega arith)))
  | inr large ↦ rw large (
      starts_digit-append (digits_of fuel (n / 10)) (String.◌∷◌ (digit (n % 10)) String.[])
        (starts_digit-digits_of fuel (n / 10)))
]

parse_digits :
    (s : String) (n : ℕ)
    → starts_digit s ≡ true
    → digits_value 0 s ≡ some n
    → n ≤ u64_max
    → parse_u64 s ≡ some n
unfolding parse_u64
parse_digits String.[] n first value le = cc
parse_digits (String.◌∷◌ c s) n first value le = ground arith

-- A `u64` that is printed is read back.
pub parse_u64-to_text : (n : ℕ) → n ≤ u64_max → parse_u64 (to_text n) ≡ some n
unfolding to_text
parse_u64-to_text n le =
    parse_digits (to_text n) n (starts_digit-digits_of 19 n)
      (digits_of-value 19 n (omega (arith, le))) le

pub is_empty-to_text : (n : ℕ) → is_empty (to_text n) ≡ false
unfolding to_text
is_empty-to_text n = filled (to_text n) (starts_digit-digits_of 19 n)
  where
    filled : (s : String) → starts_digit s ≡ true → is_empty s ≡ false
    filled String.[] h = cc
    filled (String.◌∷◌ c s) h = refl

digits_value-digits : (n v : ℕ) (s : String) → digits_value n s ≡ some v → all_digits s ≡ true
unfolding digits_value all_digits
digits_value-digits n v String.[] h = refl
digits_value-digits n v (String.◌∷◌ c s) h = elim (Bool-cases (is_ascii_digit (code c))) [
  | inl e ↦ rw e (digits_value-digits (n * 10 + (code c - 48)) v s (rw e at h))
  | inr e ↦ cc (rw e at h)
]

pub all_digits-to_text : (n : ℕ) → n ≤ u64_max → all_digits (to_text n) ≡ true
unfolding to_text
all_digits-to_text n le =
    digits_value-digits 0 n (to_text n) (digits_of-value 19 n (omega (arith, le)))
