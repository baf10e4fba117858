-- ===== src/Manager/Link.antt =====
-- How the in-memory table of open sessions stands to the open rows of the database.
use ludex.Base.{◌≡◌, true, some, List, All}
use ludex.Base.Table.{Table, Unique, lookup}
use ludex.Types.{Session, GameKey, key_eq}
use ludex.Store.{find_by_id, is_open}
use ludex.Store.Invariant.{IsValid}
use ludex.Manager.{SessionManager, OpenSession}

-- An entry names an open row, of the application that it says.
abbrev pub Backed : List Session → OpenSession → Type 0
Backed rows o =
    (s : Session) × (find_by_id o.session_id rows ≡ some s)
    × (is_open s ≡ true)
    × (s.application_id ≡ o.application_id)

-- An open row has an entry.
abbrev pub Held : Table GameKey OpenSession → Session → Type 0
Held open_sessions s =
    is_open s ≡ true
    → (k : GameKey) × (o : OpenSession) × (lookup k open_sessions ≡ some o) × (o.session_id ≡ s.id)

-- The entries are, one to one, the open rows of a valid database.
pub record Linked (m : SessionManager) : Type 0 where
  pub valid : IsValid m.db
  pub unique : Unique m.open_sessions
  pub backed :
      (k : GameKey) (o : OpenSession) → lookup k m.open_sessions ≡ some o → Backed m.db.sessions o
  pub apart :
      (j k : GameKey) (p o : OpenSession)
      → lookup j m.open_sessions ≡ some p
      → lookup k m.open_sessions ≡ some o
      → p.session_id ≡ o.session_id
      → j ≡ k
  pub held : All (Held m.open_sessions) m.db.sessions
