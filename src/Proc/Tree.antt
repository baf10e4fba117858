-- ===== src/Proc/Tree.antt =====
-- crates/ludex-daemon/src/proc/tree.rs: the ancestors of a process. What /proc/<pid>/stat holds comes from a function;
-- `none` is a file that cannot be read.
pub mod Stat
pub mod Chain
use ludex.Base.{
  ℕ, zero, suc, Bool, true, false, not, Option, none, some, List, [], ◌∷◌, String, leb, nat_beq,
  where_rows, ◌==◌, nat_eq, if◌then◌else◌,
}
use Prim.Native.Char.{Char, code}
use ludex.Text.{is_whitespace, is_empty, cons_head, parse_u64}

abbrev pub or_behind : Option String → String → Bool → Option String
or_behind (some later) s is_last = some later
or_behind none s true = some s
or_behind none s false = none

-- The text behind the last place of a character: `rfind`, and the slice behind it.
unfoldable pub behind_last : ℕ → String → Option String
behind_last sep String.[] = none
behind_last sep (String.◌∷◌ c s) = or_behind (behind_last sep s) s (nat_beq (code c) sep)

unfoldable pub split_spaces : String → List String
split_spaces String.[] = String.[] ∷ []
split_spaces (String.◌∷◌ c s) =
    let parts = split_spaces s in
    if is_whitespace (code c) then String.[] ∷ parts else cons_head c parts

-- `split_whitespace`.
unfoldable pub split_whitespace : String → List String
unfolding split_spaces
split_whitespace s = where_rows (λ part. not (is_empty part)) (split_spaces s)

abbrev pub within_u32 : Option ℕ → Option ℕ
within_u32 none = none
within_u32 (some n) = if leb n 4294967295 then some n else none

abbrev pub second_field : List String → Option ℕ
second_field [] = none
second_field (state ∷ []) = none
second_field (state ∷ ppid ∷ fields) = within_u32 (parse_u64 ppid)

abbrev pub ppid_behind : Option String → Option ℕ
ppid_behind none = none
ppid_behind (some rest) = second_field (split_whitespace rest)

-- `parse_ppid`.
unfoldable pub parse_ppid : String → Option ℕ
unfolding behind_last split_whitespace parse_u64
parse_ppid stat = ppid_behind (behind_last b')' stat)

abbrev pub ppid_in : Option String → Option ℕ
ppid_in none = none
ppid_in (some stat) = parse_ppid stat

-- `parent(pid).ok().flatten()`.
unfoldable pub parent : (ℕ → Option String) → ℕ → Option ℕ
unfolding parse_ppid
parent stat pid = if pid == 0 then none else ppid_in (stat pid)

-- The successor of an ancestor: init has none.
unfoldable pub next_ancestor : (ℕ → Option String) → ℕ → Option ℕ
unfolding parent
next_ancestor stat p = if leb p 1 then none else parent stat p

-- The first ancestors, as many as the fuel.
unfoldable pub walk : (ℕ → Option String) → ℕ → Option ℕ → List ℕ
unfolding next_ancestor
walk stat zero from = []
walk stat (suc fuel) none = []
walk stat (suc fuel) (some p) = p ∷ walk stat fuel (next_ancestor stat p)

-- `ancestors`.
unfoldable pub ancestors : (ℕ → Option String) → ℕ → ℕ → List ℕ
unfolding walk
ancestors stat fuel pid = walk stat fuel (parent stat pid)
