-- ===== src/Proc/Tree/Stat.antt =====
-- crates/ludex-daemon/src/proc/tree.rs, `parse_ppid`: a line of /proc/<pid>/stat, read back.
use ludex.Base.{
  ℕ, ◌≤◌, ◌≡◌, refl, ap, ◌∙◌, Bool, true, false, not, ◌&&◌, none, some, ◌∷◌, String, arith, nat_beq,
}
use Prim.Native.Char.{Char, char, code}
use ludex.Text.{is_whitespace, is_empty, all_digits}
use ludex.Text.Search.{◌+++◌}
use ludex.Text.Search.Laws.{lacks, lacks-append}
use ludex.Settings.{to_text}
use ludex.Settings.Digits.{parse_u64-to_text, is_empty-to_text, all_digits-to_text}
use ludex.Proc.Tree.{behind_last, split_spaces, split_whitespace, ppid_behind, parse_ppid}

-- What the kernel prints of a process: its name, its state, its parent, and the fields behind.
pub record Process : Type 0 where
  pub comm : String
  pub state : String
  pub ppid : ℕ
  pub fields : String

unfoldable pub stat_line : ℕ → Process → String
unfolding ◌+++◌
stat_line pid p =
    (to_text pid +++ " (" +++ p.comm)
    +++ ") "
    +++ p.state
    +++ " "
    +++ to_text p.ppid
    +++ " "
    +++ p.fields

unfoldable pub spaceless : String → Bool
spaceless String.[] = true
spaceless (String.◌∷◌ c s) = not (is_whitespace (code c)) && spaceless s

-- The state is a word, and only the name may hold a parenthesis.
pub record IsProcess (p : Process) : Type 0 where
  pub word : (spaceless p.state && not (is_empty p.state)) ≡ true
  pub state : lacks b')' p.state ≡ true
  pub fields : lacks b')' p.fields ≡ true
  pub ppid : p.ppid ≤ 4294967295

behind_last-lacks : (sep : ℕ) (s : String) → lacks sep s ≡ true → behind_last sep s ≡ none
unfolding behind_last lacks
behind_last-lacks sep String.[] h = refl
behind_last-lacks sep (String.◌∷◌ c s) h =
    rw (behind_last-lacks sep s (ground (arith, h))) (ground (arith, h))

behind_last-append :
    (sep : ℕ) (a s : String) (c : Char)
    → nat_beq (code c) sep ≡ true
    → lacks sep s ≡ true
    → behind_last sep (a +++ String.◌∷◌ c s) ≡ some s
unfolding behind_last ◌+++◌
behind_last-append sep String.[] s c e h = rw (behind_last-lacks sep s h, e) refl
behind_last-append sep (String.◌∷◌ d a) s c e h = rw (behind_last-append sep a s c e h) refl

split_spaces-word :
    (w s : String) (c : Char)
    → is_whitespace (code c) ≡ true
    → spaceless w ≡ true
    → split_spaces (w +++ String.◌∷◌ c s) ≡ w ∷ split_spaces s
unfolding split_spaces spaceless ◌+++◌
split_spaces-word String.[] s c e h = rw e refl
split_spaces-word (String.◌∷◌ d w) s c e h =
    let other : is_whitespace (code d) ≡ false = ground (arith, h) in
    rw (other, split_spaces-word w s c e (rw other at h)) refl

digits-spaceless : (s : String) → all_digits s ≡ true → spaceless s ≡ true
unfolding all_digits spaceless
digits-spaceless String.[] h = refl
digits-spaceless (String.◌∷◌ c s) h = ground (arith, h, digits-spaceless s)

digits-lacks : (s : String) → all_digits s ≡ true → lacks b')' s ≡ true
unfolding all_digits lacks
digits-lacks String.[] h = refl
digits-lacks (String.◌∷◌ c s) h = ground (arith, h, digits-lacks s)

abbrev space : Char
space = char b' ' tt

-- The text behind the name.
unfoldable behind_name : Process → String
unfolding ◌+++◌
behind_name p = " " +++ p.state +++ " " +++ to_text p.ppid +++ " " +++ p.fields

behind_name-lacks : (p : Process) → IsProcess p → lacks b')' (behind_name p) ≡ true
unfolding behind_name lacks ◌+++◌
behind_name-lacks p ok =
    rw
      (
        lacks-append b')' p.state (" " +++ to_text p.ppid +++ " " +++ p.fields),
        lacks-append b')' (to_text p.ppid) (" " +++ p.fields),
      )
      (ground (
        arith,
        ok.state,
        ok.fields,
        digits-lacks (to_text p.ppid) (all_digits-to_text p.ppid (omega (arith, ok.ppid))),
      ))

behind_name-split :
    (p : Process)
    → IsProcess p
    → split_spaces (behind_name p) ≡ "" ∷ p.state ∷ to_text p.ppid ∷ split_spaces p.fields
unfolding behind_name split_spaces ◌+++◌
behind_name-split p ok =
    ap (λ parts. "" ∷ parts)
      (split_spaces-word p.state (to_text p.ppid +++ " " +++ p.fields) space refl
          (ground (arith, ok.word))
        ∙ ap (λ parts. p.state ∷ parts)
            (split_spaces-word (to_text p.ppid) p.fields space refl (
              digits-spaceless (to_text p.ppid)
                (all_digits-to_text p.ppid (omega (arith, ok.ppid))))))

behind_name-ppid : (p : Process) → IsProcess p → ppid_behind (some (behind_name p)) ≡ some p.ppid
unfolding split_whitespace
behind_name-ppid p ok =
    let word : is_empty p.state ≡ false = ground (arith, ok.word) in
    rw
      (
        behind_name-split p ok,
        word,
        is_empty-to_text p.ppid,
        parse_u64-to_text p.ppid (omega (arith, ok.ppid)),
      )
      (ground (arith, ok.ppid))

-- The line of a process gives its parent, whatever parentheses and spaces its name holds.
pub parse_ppid-stat_line :
    (pid : ℕ) (p : Process) → IsProcess p → parse_ppid (stat_line pid p) ≡ some p.ppid
unfolding parse_ppid stat_line behind_name ◌+++◌
parse_ppid-stat_line pid p ok =
    ap ppid_behind (
      behind_last-append b')' (to_text pid +++ " (" +++ p.comm) (behind_name p) (char b')' tt) refl
        (behind_name-lacks p ok))
    ∙ behind_name-ppid p ok
