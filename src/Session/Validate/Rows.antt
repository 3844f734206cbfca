-- ===== src/Session/Validate/Rows.antt =====
-- The check and the lease of a session, as changes of rows.
use sandkasten.Base.{Option, none, some}
use sandkasten.Base.Int.{ℤ}
use sandkasten.Base.Text.{Bytes}
use sandkasten.World.{Session, Env}
use sandkasten.World.Action.Follows.{Follows, follows_rules}
use sandkasten.Store.RowHistory.{RowRelation, row_history, Follows-get_session, Follows-activity}
use sandkasten.Store.RowRules.{AllowsUse}
use sandkasten.Session.{Manager}
use sandkasten.Session.Validate.{unexpired, usable, validate_session, extend_session_lease}

module _ (r : RowRelation) (env : Env) (m : Manager) where
  unexpired-Follows :
      (id : Bytes) (s : Session) (now : ℤ) → Follows (row_history r) (unexpired env m id s now)
  unfolding unexpired
  unexpired-Follows id s now = search follows_rules

  usable-Follows : (id : Bytes) (o : Option Session) → Follows (row_history r) (usable env m id o)
  unfolding usable
  usable-Follows id none = search follows_rules
  usable-Follows id (some s) = search (follows_rules, unexpired-Follows)

  pub Follows-validate_session : (id : Bytes) → Follows (row_history r) (validate_session env m id)
  unfolding validate_session
  Follows-validate_session id = search (follows_rules, usable-Follows, Follows-get_session)

  pub Follows-lease :
      (a : AllowsUse r) (id cwd : Bytes)
      → Follows (row_history r) (extend_session_lease env m id cwd)
  unfolding extend_session_lease
  Follows-lease a id cwd =
      search (follows_rules, Follows-activity r env id cwd _ (λ s now. a.lives s cwd now _))
