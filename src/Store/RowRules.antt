-- ===== src/Store/RowRules.antt =====
-- What a relation between a row and its later self has to allow: the changes that the daemon makes.
use sandkasten.Base.{◌≢◌}
use sandkasten.Base.Int.{ℤ}
use sandkasten.Base.Text.{Bytes}
use sandkasten.World.{Session, Status, running}
use sandkasten.Store.{set_activity}
use sandkasten.Store.RowHistory.{RowRelation}

-- What every operation but `Create` does: leases, and every status but `running`.
pub record AllowsUse (r : RowRelation) : Type 0 where
  pub rests :
      (s : Session) (status : Status) → status ≢ running → r.rel s (record s { status = status })
  pub lives :
      (s : Session) (cwd : Bytes) (now expires : ℤ) → r.rel s (set_activity cwd now expires s)

-- What `Create` does too: it wakes a pooled session and gives it a workspace.
pub record AllowsCreate (r : RowRelation) : Type 0 where
  pub use_allowed : AllowsUse r
  pub wakes : (s : Session) → r.rel s (record s { status = running })
  pub binds : (s : Session) (workspace : Bytes) → r.rel s (record s { workspace_id = workspace })
