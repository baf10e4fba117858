-- ===== src/Backups/Names.antt =====
-- crates/ludex-core/src/backup.rs: a name that is formatted is read back, and taken for a backup.
use ludex.Base.{
  ℕ, ◌+◌, ◌<◌, ◌≡◌, refl, sym, ap, ◌∙◌, true, false, ◌&&◌, Option, some, List, [], ◌∷◌, String,
  arith, ◌==◌, string_eq, Bool-cases, inl, inr, nat_beq, beq_self,
}
use Prim.Native.Char.{code}
use ludex.Text.{split, cons_head}
use ludex.Text.Search.{◌+++◌, strip_suffix, starts_with, cons_text}
use ludex.Text.Search.Laws.{strip_prefix-append, append_assoc}
use ludex.Backups.{
  format_backup_filename, parse_backup_filename, is_backup, extension, is_extension, last_part,
  stamp_of, without,
}

abbrev size : String → ℕ
size String.[] = 0
size (String.◌∷◌ c s) = 1 + size s

size-append : (s t : String) → size (s +++ t) ≡ size s + size t
unfolding ◌+++◌
size-append String.[] t = omega arith
size-append (String.◌∷◌ c s) t = omega (arith, size-append s t)

longer-apart : (s t : String) → size s < size t → (s == t) ≡ false
longer-apart s t lt = elim (Bool-cases (s == t)) [
  | inl same ↦ absurd (omega (arith, lt, ap size ((string_eq.beq_iff s t).0 same)))
  | inr apart ↦ apart
]

strip_suffix-append : (s suffix : String) → strip_suffix suffix (s +++ suffix) ≡ some s
unfolding strip_suffix ◌+++◌
strip_suffix-append String.[] String.[] = refl
strip_suffix-append String.[] (String.◌∷◌ c s) = rw (beq_self (String.◌∷◌ c s)) refl
strip_suffix-append (String.◌∷◌ c s) suffix =
    rw (longer-apart suffix (String.◌∷◌ c (s +++ suffix)) (omega (arith, size-append s suffix)))
      (ap (cons_text c) (strip_suffix-append s suffix))

starts_with-append : (p s : String) → starts_with p (p +++ s) ≡ true
starts_with-append p s = rw (strip_prefix-append p s) refl

-- A text that is split into two parts or more, the last of which is an extension.
record Ends (e : String) (parts : List String) : Type 0 where
  first : String
  second : String
  rest : List String
  split : parts ≡ first ∷ second ∷ rest
  last : last_part second rest ≡ e

split-Ends : (s : String) → Ends "sqlite" (split b'.' (s +++ ".sqlite"))
unfolding split ◌+++◌
split-Ends String.[] = record {
  first = "";
  second = "sqlite";
  rest = [];
  split = refl;
  last = refl;
}
split-Ends (String.◌∷◌ c s) =
    let later = split-Ends s in
    elim (Bool-cases (nat_beq (code c) b'.')) [
      | inl dot ↦ rw dot (record {
        first = "";
        second = later.first;
        rest = later.second ∷ later.rest;
        split = ap (λ parts. "" ∷ parts) later.split;
        last = later.last;
      })
      | inr other ↦ rw other (record {
        first = String.◌∷◌ c later.first;
        second = later.second;
        rest = later.rest;
        split = ap (cons_head c) later.split;
        last = later.last;
      })
    ]

format-extension : (s : String) → extension ("ludex-" +++ (s +++ ".sqlite")) ≡ some "sqlite"
unfolding extension split ◌+++◌
format-extension s = extension_last (split-Ends ("udex-" +++ s))
  where
    extension_last :
        Ends "sqlite" (split b'.' (("udex-" +++ s) +++ ".sqlite"))
        → extension ("ludex-" +++ (s +++ ".sqlite")) ≡ some "sqlite"
    extension_last e = rw e.split (ap some e.last)

-- The name of a snapshot that is formatted for a time is taken for a backup, and its time is read back, where the
-- format of the stamp is read back by its own reader.
pub parse_backup_filename-format :
    (format_stamp : ℕ → String) (parse_stamp : String → Option ℕ) (at : ℕ)
    → parse_stamp (format_stamp at) ≡ some at
    → (parse_backup_filename parse_stamp (format_backup_filename format_stamp at) ≡ some at)
      × (is_backup (format_backup_filename format_stamp at) ≡ true)
unfolding parse_backup_filename format_backup_filename is_backup
parse_backup_filename-format format_stamp parse_stamp at law = (
  ap (λ o. stamp_of parse_stamp (without "Z" (without ".sqlite" o)))
        (strip_prefix-append "ludex-" (format_stamp at +++ "Z.sqlite"))
      ∙ ap (λ s. stamp_of parse_stamp (without "Z" (strip_suffix ".sqlite" s)))
          (sym (append_assoc (format_stamp at) "Z" ".sqlite"))
      ∙ ap (λ o. stamp_of parse_stamp (without "Z" o))
          (strip_suffix-append (format_stamp at +++ "Z") ".sqlite")
      ∙ ap (stamp_of parse_stamp) (strip_suffix-append (format_stamp at) "Z")
      ∙ law,
  ap (λ b. b && is_extension "sqlite" (extension ("ludex-" +++ (format_stamp at +++ "Z.sqlite"))))
        (starts_with-append "ludex-" (format_stamp at +++ "Z.sqlite"))
      ∙ ap (λ s. is_extension "sqlite" (extension ("ludex-" +++ s)))
          (sym (append_assoc (format_stamp at) "Z" ".sqlite"))
      ∙ ap (is_extension "sqlite") (format-extension (format_stamp at +++ "Z")),
)
