-- ===== src/Session/Create/Rows.antt =====
-- `Create`, as changes of rows.
use sandkasten.Base.{Option, none, some}
use sandkasten.Base.Int.{ℤ}
use sandkasten.Base.Text.{Bytes}
use sandkasten.World.{Session, Sandbox, Env, Result, ok, err}
use sandkasten.World.Action.Follows.{Follows, Preorder, follows_rules}
use sandkasten.Store.RowHistory.{RowRelation, row_history, Follows-create_session}
use sandkasten.Store.RowRules.{AllowsCreate}
use sandkasten.Pool.{Pool}
use sandkasten.Session.{Manager, CreateRequest, Detail, Acquired, served, unserved}
use sandkasten.Session.Acquire.Rows.{
  Follows-ensure_workspace, Follows-destroy_sandbox, Follows-start_refill, Follows-acquire,
}
use sandkasten.Session.Create.{refill_after, stored_cold, made_cold, create_cold, or_cold, create}

module _ (env : Env) (m : Manager) {p : Preorder} where
  refill_after-Follows :
      (o : Option Pool) (image workspace : Bytes) → Follows p (refill_after env m o image workspace)
  unfolding refill_after
  refill_after-Follows none image workspace = search follows_rules
  refill_after-Follows (some x) image workspace = search (follows_rules, Follows-start_refill)

  stored_cold-Follows :
      (sess : Session) (detail : Detail) (x : Result (Unit {0}))
      → Follows p (stored_cold env m sess detail x)
  unfolding stored_cold
  stored_cold-Follows sess detail (err e) = search (follows_rules, Follows-destroy_sandbox)
  stored_cold-Follows sess detail (ok _) = search (follows_rules, refill_after-Follows)

module _ (r : RowRelation) (a : AllowsCreate r) (env : Env) (m : Manager) where
  made_cold-Follows :
      (id image : Bytes) (req : CreateRequest) (now ttl : ℤ) (detail : Detail) (o : Option Sandbox)
      → Follows (row_history r) (made_cold env m id image req now ttl detail o)
  unfolding made_cold
  made_cold-Follows id image req now ttl detail none = search follows_rules
  made_cold-Follows id image req now ttl detail (some x) =
      search (follows_rules, Follows-create_session r env, stored_cold-Follows)

  create_cold-Follows :
      (image : Bytes) (req : CreateRequest) (ttl : ℤ) (detail : Detail)
      → Follows (row_history r) (create_cold env m image req ttl detail)
  unfolding create_cold
  create_cold-Follows image req ttl detail = search (follows_rules, made_cold-Follows) depth 8

  or_cold-Follows :
      (image : Bytes) (req : CreateRequest) (ttl : ℤ) (x : Acquired)
      → Follows (row_history r) (or_cold env m image req ttl x)
  unfolding or_cold
  or_cold-Follows image req ttl (served info) = search follows_rules
  or_cold-Follows image req ttl (unserved detail) = create_cold-Follows image req ttl detail

  pub Follows-create : (req : CreateRequest) → Follows (row_history r) (create env m req)
  unfolding create
  Follows-create req =
      search
        (follows_rules, Follows-ensure_workspace env m, Follows-acquire r a env m, or_cold-Follows)
        depth 8
