-- ===== src/Steam/Passes.antt =====
-- crates/ludex-daemon/src/sources/steam.rs, `drain_lines`: one pass over a log against the passes over a log that grew.
use mathlib.Core.List.{append_assoc}
use ludex.Base.{
  ℕ, suc, ◌+◌, ◌-◌, ◌≤◌, ◌<◌, ◌≡◌, refl, ap, ◌∙◌, min, Bool, true, false, Option, none, some, List,
  [], ◌∷◌, ◌++◌, String, arith, ◌==◌, nat_eq, if◌then◌else◌, length, take, drop, All, length-append,
}
use ludex.Steam.{
  Source, Decoder, Wake, consumed, chunk, rotated, drain_from, drain_lines, drain_or_keep, poll,
  resolve_name, max_drain_bytes,
}

drop-append : (xs ys : List ℕ) → drop (length xs) (xs ++ ys) ≡ ys
drop-append [] ys = refl
drop-append (x ∷ xs) ys = drop-append xs ys

take-append : (k : ℕ) (xs ys : List ℕ) → take (length xs + k) (xs ++ ys) ≡ xs ++ take k ys
take-append k [] ys = ap (λ n. take n ys) (omega arith)
take-append k (x ∷ xs) ys =
    ap (λ n. take n (x ∷ (xs ++ ys))) (suc_add (length xs) k)
    ∙ ap (λ zs. x ∷ zs) (take-append k xs ys)
  where
    suc_add : (m n : ℕ) → suc m + n ≡ suc (m + n)
    suc_add m n = omega arith

-- Bytes behind some that end with a newline.
consumed-append :
    (line more : List ℕ)
    → consumed line ≡ length line
    → 0 < length line
    → consumed (line ++ more) ≡ length line + consumed more
unfolding consumed
consumed-append [] more ends filled = absurd (omega (arith, filled))
consumed-append (b ∷ []) more ends filled = ground (arith, ends)
consumed-append (b ∷ c ∷ line) more ends filled =
    ground (arith, ends, consumed-append (c ∷ line) more)

same {ℓ} : {A : Type ℓ} (b : Bool) (a : A) → (if b then a else a) ≡ a
same true a = refl
same false a = refl

-- A log that is not there, or that starts with some bytes.
abbrev pub Starts : List ℕ → Option (List ℕ) → Type 0
Starts bytes none = Unit
Starts bytes (some file) = (more : List ℕ) × (file ≡ bytes ++ more)

-- A line that does not decode, in a log from a place on.
module _ (from_utf8 : Decoder) (before line : List ℕ) (terminated : consumed line ≡ length line)
    (filled : 0 < length line) (short : length line ≤ max_drain_bytes)
    (refuses : (bytes more : List ℕ)
      → consumed bytes ≡ length bytes
      → from_utf8 bytes ≡ none
      → from_utf8 (bytes ++ more) ≡ none)
    (undecodable : from_utf8 line ≡ none) where
  chunk-line :
      (more : List ℕ)
      → chunk (before ++ (line ++ more)) (length before)
        ≡ line ++ take (min (length more) (max_drain_bytes - length line)) more
  chunk-line more =
      ap (take (min (length (before ++ (line ++ more)) - length before) max_drain_bytes))
        (drop-append before (line ++ more))
      ∙ ap (λ n. take n (line ++ more))
          (omega (arith, length-append before (line ++ more), length-append line more, short))
      ∙ take-append (min (length more) (max_drain_bytes - length line)) line more

  drain_from-line :
      (names : String → String) (at : ℕ) (more : List ℕ) (s : Source)
      → drain_from from_utf8 names at (before ++ (line ++ more)) (length before) s
        ≡ (length before, s)
  drain_from-line names at more s =
      let kept = take (min (length more) (max_drain_bytes - length line)) more in
      rw (chunk-line more) rw (consumed-append line kept terminated filled) rw
        (take-append (consumed kept) line kept) rw
        (refuses line (take (consumed kept) kept) terminated undecodable)
        (same (length line + consumed kept == 0) (length before, s))

  drain_or_keep-line :
      (names : String → String) (at : ℕ) (log : Option (List ℕ)) (s : Source)
      → Starts (before ++ line) log
      → drain_or_keep from_utf8 names at log (length before, s) ≡ (length before, s)
  unfolding drain_or_keep drain_lines
  drain_or_keep-line names at none s starts = refl
  drain_or_keep-line names at (some file) s (more, e) =
      rw e rw (append_assoc before line more) rw (kept_cursor more)
        (drain_from-line names at more s)
    where
      kept_cursor :
          (more : List ℕ) → rotated (before ++ (line ++ more)) (length before) ≡ length before
      kept_cursor more = ground (arith, length-append before (line ++ more))

  -- A line of at most `max_drain_bytes` that ends with a newline and is not valid UTF-8 stops the source for good:
  -- however the log grows behind it, and also where the log cannot be read for a while, no wake moves the cursor
  -- from the start of the line, sends an event, or changes the set of running games. The decoder is taken to
  -- refuse whatever starts with a text that ends with a newline and that it refuses.
  pub poll-Stalled :
      (wakes : List Wake) (s : Source)
      → All (λ w. Starts (before ++ line) w.log) wakes
      → poll from_utf8 wakes (length before, s) ≡ (length before, s)
  unfolding poll
  poll-Stalled [] s starts = refl
  poll-Stalled (w ∷ wakes) s starts =
      rw (drain_or_keep-line (resolve_name w.manifests) w.at w.log s starts.0)
        (poll-Stalled wakes s starts.1)
