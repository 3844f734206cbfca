-- ===== src/Session/Query/Rows.antt =====
-- Queries and `Destroy`, as changes of rows.
use sandkasten.Base.{◌≢◌, Option, none, some}
use sandkasten.Base.Text.{Bytes}
use sandkasten.World.{Session, Status, running, destroying, destroyed, Env, Error}
use sandkasten.World.Action.Follows.{Follows, Preorder, follows_rules}
use sandkasten.Store
use sandkasten.Store.RowHistory.{RowRelation, row_history, Follows-get_session, Follows-status}
use sandkasten.Store.RowRules.{AllowsUse}
use sandkasten.Session.{Manager}
use sandkasten.Session.Exec.Rows.{Follows-set_lock}
use sandkasten.Session.Acquire.{destroy_sandbox}
use sandkasten.Session.Query.{or_error, destroy}

or_error-Follows : {p : Preorder} (e : Error) (o : Option Session) → Follows p (or_error e o)
unfolding or_error
or_error-Follows e none = search follows_rules
or_error-Follows e (some s) = search follows_rules

pub Follows-destroy_sandbox :
    {p : Preorder} (env : Env) (m : Manager) (id : Bytes) → Follows p (destroy_sandbox env m id)
unfolding destroy_sandbox
Follows-destroy_sandbox env m id = search follows_rules

module _ (r : RowRelation) (a : AllowsUse r) (env : Env) where
  -- An UPDATE that sets any status but `running`.
  pub Follows-rest :
      (id : Bytes) (status : Status)
      → status ≢ running
      → Follows (row_history r) (Store.update_session_status env id status)
  Follows-rest id status h = Follows-status r env id status (λ s. a.rests s status h)

  pub Follows-destroy : (m : Manager) (id : Bytes) → Follows (row_history r) (destroy env m id)
  unfolding destroy
  Follows-destroy m id =
      search
        (
          follows_rules,
          Follows-get_session r env,
          or_error-Follows,
          Follows-destroy_sandbox,
          Follows-rest id destroying (λ e. cc),
          Follows-rest id destroyed (λ e. cc),
          Follows-set_lock r,
        )
        depth 9
