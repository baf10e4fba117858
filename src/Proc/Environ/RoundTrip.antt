-- ===== src/Proc/Environ/RoundTrip.antt =====
-- crates/ludex-daemon/src/proc/environ.rs: a block of variables as the kernel shows it, read back.
use ludex.Base.{
  ℕ, ◌≡◌, refl, ap, ◌∙◌, Bool, true, false, not, ◌&&◌, Option, some, List, [], ◌∷◌, ◌++◌, String,
  arith, nat_beq, All, string_eq,
}
use ludex.Base.Table.{Table, insert}
use ludex.Proc.Environ.{split_bytes, cut_bytes, entry_of, decoded, parse, collect, insert_found}

-- No byte of the list is the separator.
unfoldable pub free_of : ℕ → List ℕ → Bool
free_of sep [] = true
free_of sep (b ∷ bytes) = not (nat_beq b sep) && free_of sep bytes

-- A variable, and its name and value as bytes.
pub record Variable : Type 0 where
  pub key : String
  pub value : String
  pub key_bytes : List ℕ
  pub value_bytes : List ℕ

-- `KEY=VALUE`, each with a zero byte behind it.
unfoldable pub block : List Variable → List ℕ
block [] = []
block (v ∷ vars) = (v.key_bytes ++ (b'=' ∷ v.value_bytes)) ++ (0 ∷ block vars)

abbrev pub set_all : List Variable → Table String String → Table String String
unfolding insert
set_all [] env = env
set_all (v ∷ vars) env = set_all vars (insert v.key v.value env)

split_bytes-append :
    (sep : ℕ) (entry more : List ℕ)
    → free_of sep entry ≡ true
    → split_bytes sep (entry ++ (sep ∷ more)) ≡ entry ∷ split_bytes sep more
unfolding split_bytes free_of
split_bytes-append sep [] more h = ground arith
split_bytes-append sep (b ∷ entry) more h = ground (arith, h, split_bytes-append sep entry more)

cut_bytes-append :
    (sep : ℕ) (key value : List ℕ)
    → free_of sep key ≡ true
    → cut_bytes sep (key ++ (sep ∷ value)) ≡ some (key, value)
unfolding cut_bytes free_of
cut_bytes-append sep [] value h = ground arith
cut_bytes-append sep (b ∷ key) value h = ground (arith, h, cut_bytes-append sep key value)

free_of-append :
    (sep b : ℕ) (key value : List ℕ)
    → free_of sep key ≡ true
    → nat_beq b sep ≡ false
    → free_of sep value ≡ true
    → free_of sep (key ++ (b ∷ value)) ≡ true
unfolding free_of
free_of-append sep b [] value h k l = ground (arith, k, l)
free_of-append sep b (c ∷ key) value h k l = ground (arith, h, free_of-append sep b key value)

module _ (from_utf8 : List ℕ → Option String) where
  -- The bytes are those of the texts, a name has no `=`, and neither has a zero byte.
  pub record IsVariable (v : Variable) : Type 0 where
    pub key : from_utf8 v.key_bytes ≡ some v.key
    pub value : from_utf8 v.value_bytes ≡ some v.value
    pub equals : free_of b'=' v.key_bytes ≡ true
    pub key_zero : free_of 0 v.key_bytes ≡ true
    pub value_zero : free_of 0 v.value_bytes ≡ true

  entry_of-variable :
      (v : Variable)
      → IsVariable v
      → entry_of from_utf8 (v.key_bytes ++ (b'=' ∷ v.value_bytes)) ≡ some (v.key, v.value)
  unfolding entry_of
  entry_of-variable v h =
      ap (decoded from_utf8) (cut_bytes-append b'=' v.key_bytes v.value_bytes h.equals)
      ∙ rw (h.key, h.value) refl

  collect-block :
      (vars : List Variable) (env : Table String String)
      → All IsVariable vars
      → collect from_utf8 (split_bytes 0 (block vars)) env ≡ set_all vars env
  unfolding block collect set_all insert_found
  collect-block [] env h = unfold split_bytes in unfold entry_of in unfold cut_bytes in refl
  collect-block (v ∷ vars) env h =
      ap (λ entries. collect from_utf8 entries env)
        (split_bytes-append 0 (v.key_bytes ++ (b'=' ∷ v.value_bytes)) (block vars)
          (free_of-append 0 b'=' v.key_bytes v.value_bytes (h.0).key_zero refl (h.0).value_zero))
      ∙ ap (λ found. collect from_utf8 (split_bytes 0 (block vars)) (insert_found found env))
          (entry_of-variable v h.0)
      ∙ collect-block vars (insert v.key v.value env) h.1

  -- A block of variables is read back: the map has for each name the last value that the block gives it, as if the
  -- variables were set one by one. Names and values are texts without a zero byte that the decoder reads, names
  -- have no `=`.
  pub parse-block :
      (vars : List Variable) → All IsVariable vars → parse from_utf8 (block vars) ≡ set_all vars []
  unfolding parse
  parse-block vars h = collect-block vars [] h
