-- ===== src/Text/Search/Laws.antt =====
-- What the functions on texts make of a text that is put together from parts.
use ludex.Base.{
  ℕ, ◌≡◌, refl, sym, ap, ap₂, ◌∙◌, ◌==◌, string_eq, beq-eq_true, Bool, true, false, not, ◌&&◌, some,
  ◌∷◌, String, arith, nat_beq, Bool-cases, inl, inr,
}
use Prim.Native.Char.{Char, code}
use text.Mathlib.TextEquality.{Char-path}
use ludex.Text.{is_empty}
use ludex.Text.Search.{◌+++◌, strip_prefix, split_once, split_inclusive, chomp}

-- No character of the text has the number.
unfoldable pub lacks : ℕ → String → Bool
lacks sep String.[] = true
lacks sep (String.◌∷◌ c s) = not (nat_beq (code c) sep) && lacks sep s

pub strip_prefix-append : (p s : String) → strip_prefix p (p +++ s) ≡ some s
unfolding strip_prefix ◌+++◌
strip_prefix-append String.[] s = refl
strip_prefix-append (String.◌∷◌ c p) s = ground (arith, strip_prefix-append p s)

pub split_once-append :
    (sep : ℕ) (a s : String) (c : Char)
    → code c ≡ sep
    → lacks sep a ≡ true
    → split_once sep (a +++ String.◌∷◌ c s) ≡ some (a, s)
unfolding split_once ◌+++◌ lacks
split_once-append sep String.[] s c e h = ground arith
split_once-append sep (String.◌∷◌ d a) s c e h = ground (arith, split_once-append sep a s c e)

pub split_inclusive-append :
    (sep : ℕ) (a s : String) (c : Char)
    → code c ≡ sep
    → lacks sep a ≡ true
    → split_inclusive sep (a +++ String.◌∷◌ c s)
      ≡ (a +++ String.◌∷◌ c String.[]) ∷ split_inclusive sep s
unfolding split_inclusive ◌+++◌ lacks
split_inclusive-append sep String.[] s c e h = ground arith
split_inclusive-append sep (String.◌∷◌ d a) s c e h =
    ground (arith, split_inclusive-append sep a s c e)

pub append_assoc : (a b c : String) → (a +++ b) +++ c ≡ a +++ b +++ c
unfolding ◌+++◌
append_assoc String.[] b c = refl
append_assoc (String.◌∷◌ d a) b c = ap (String.◌∷◌ d) (append_assoc a b c)

pub is_empty-append : (a : String) (c : Char) (s : String) → is_empty (a +++ String.◌∷◌ c s) ≡ false
unfolding ◌+++◌
is_empty-append String.[] c s = refl
is_empty-append (String.◌∷◌ d a) c s = refl

-- A line that does not end in `\r` loses its line end, and no more.
pub chomp-line :
    (a : String) (c n : Char)
    → code n ≡ b'\n'
    → nat_beq (code c) b'\r' ≡ false
    → nat_beq (code c) b'\n' ≡ false
    → chomp (a +++ String.◌∷◌ c (String.◌∷◌ n String.[])) ≡ a +++ String.◌∷◌ c String.[]
unfolding chomp ◌+++◌
chomp-line String.[] c n e h k = ground arith
chomp-line (String.◌∷◌ d String.[]) c n e h k = ground arith
chomp-line (String.◌∷◌ d (String.◌∷◌ f a)) c n e h k =
    ground
      (arith, chomp-line (String.◌∷◌ f a) c n e h k, is_empty-append a c (String.◌∷◌ n String.[]))

-- The parts of an append lack what the whole lacks.
pub lacks-append : (sep : ℕ) (a b : String) → lacks sep (a +++ b) ≡ (lacks sep a && lacks sep b)
unfolding lacks ◌+++◌
lacks-append sep String.[] b = refl
lacks-append sep (String.◌∷◌ c a) b = ground (arith, lacks-append sep a b)

-- Equality of texts, character by character.
unfoldable pub text_beq : String → String → Bool
text_beq String.[] String.[] = true
text_beq String.[] (String.◌∷◌ d t) = false
text_beq (String.◌∷◌ c s) String.[] = false
text_beq (String.◌∷◌ c s) (String.◌∷◌ d t) = nat_beq (code c) (code d) && text_beq s t

text_beq_self : (s : String) → text_beq s s ≡ true
unfolding text_beq
text_beq_self String.[] = refl
text_beq_self (String.◌∷◌ c s) = ground (arith, text_beq_self s)

text_beq_same : (s t : String) → text_beq s t ≡ true → s ≡ t
unfolding text_beq
text_beq_same String.[] String.[] h = refl
text_beq_same String.[] (String.◌∷◌ d t) h = cc
text_beq_same (String.◌∷◌ c s) String.[] h = cc
text_beq_same (String.◌∷◌ c s) (String.◌∷◌ d t) h =
    ap₂ String.◌∷◌ (Char-path c d (ground (arith, h))) (text_beq_same s t (ground (arith, h)))

pub text_beq_lem : (s t : String) → text_beq s t ≡ (s == t)
text_beq_lem s t = elim (Bool-cases (text_beq s t)) [
  | inl e ↦ e ∙ sym ((string_eq.beq_iff s t).1 (text_beq_same s t e))
  | inr e ↦ elim (Bool-cases (s == t)) [
    | inl same ↦ absurd (ground (arith, e, text_beq_self s, ap (text_beq s) (beq-eq_true s t same)))
    | inr other ↦ e ∙ sym other
  ]
]
