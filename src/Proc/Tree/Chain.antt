-- ===== src/Proc/Tree/Chain.antt =====
-- crates/ludex-daemon/src/proc/tree.rs, `ancestors`: the walk up the processes that the kernel prints.
use ludex.Base.{ℕ, ◌≤◌, ◌<◌, ◌≡◌, Option, none, some, List, [], ◌∷◌, String, nat_eq}
use ludex.Proc.Tree.Stat.{Process, IsProcess, stat_line}

-- The ancestors of a process by the printed lines: its parent, and where that is above init the
-- parent's ancestors, which are none where the parent's file cannot be read.
pub data Climbs (stat : ℕ → Option String) : ℕ → List ℕ → Type 0 where
  unreadable : {pid : ℕ} → stat pid ≡ none → Climbs stat pid []
  top :
      {pid : ℕ} (p : Process)
      → stat pid ≡ some (stat_line pid p)
      → IsProcess p
      → p.ppid ≤ 1
      → Climbs stat pid (p.ppid ∷ [])
  up :
      {pid : ℕ} {ps : List ℕ} (p : Process)
      → stat pid ≡ some (stat_line pid p)
      → IsProcess p
      → 1 < p.ppid
      → Climbs stat p.ppid ps
      → Climbs stat pid (p.ppid ∷ ps)
