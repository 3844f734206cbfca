-- ===== src/Session/Acquire/Rows.antt =====
-- The pool's part of `Create`, as changes of rows.
use sandkasten.Base.{Bool, true, false, Option, none, some}
use sandkasten.Base.Int.{ℤ}
use sandkasten.Base.Text.{Bytes}
use sandkasten.World.{Session, running, destroyed, Env, Result, ok, err}
use sandkasten.World.Action.Follows.{Follows, Preorder, follows_rules}
use sandkasten.Store.RowHistory.{
  RowRelation, row_history, Follows-get_session, Follows-status, Follows-activity,
  Follows-workspace,
}
use sandkasten.Store.RowRules.{AllowsCreate}
use sandkasten.Pool.{Pool}
use sandkasten.Pool.Rows.{Follows-get}
use sandkasten.Session.{Manager, CreateRequest, Detail, Info}
use sandkasten.Session.Acquire.{
  make_workspace, ensure_workspace, destroy_sandbox, give_up, start_refill, finish_active,
  finish_running, finish_pool_acquire, replace, mount_workspace, bound, mounted, bind_workspace,
  use_pooled, with_row, with_fallback_row, with_fallback, with_taken, acquire,
}

module _ (env : Env) (m : Manager) {p : Preorder} where
  make_workspace-Follows :
      (workspace : Bytes) (o : Option Bool) → Follows p (make_workspace env m workspace o)
  unfolding make_workspace
  make_workspace-Follows workspace none = search follows_rules
  make_workspace-Follows workspace (some true) = search follows_rules
  make_workspace-Follows workspace (some false) = search follows_rules

  pub Follows-ensure_workspace : (workspace : Bytes) → Follows p (ensure_workspace env m workspace)
  unfolding ensure_workspace
  Follows-ensure_workspace workspace = search (follows_rules, make_workspace-Follows) depth 8

  pub Follows-destroy_sandbox : (id : Bytes) → Follows p (destroy_sandbox env m id)
  unfolding destroy_sandbox
  Follows-destroy_sandbox id = search follows_rules

  pub Follows-start_refill :
      (image workspace : Bytes) (count : ℤ) → Follows p (start_refill env m image workspace count)
  unfolding start_refill
  Follows-start_refill image workspace count = search follows_rules

  replace-Follows :
      (image workspace : Bytes) (count : ℤ) (detail : Detail) (o : Option Info)
      → Follows p (replace env m image workspace count detail o)
  unfolding replace
  replace-Follows image workspace count detail none = search follows_rules
  replace-Follows image workspace count detail (some info) =
      search (follows_rules, Follows-start_refill)

  mount-Follows : (id workspace : Bytes) → Follows p (mount_workspace env m id workspace)
  unfolding mount_workspace
  mount-Follows id workspace = search follows_rules

ruleset acquire_rules =
    (follows_rules, Follows-destroy_sandbox, Follows-start_refill, replace-Follows, mount-Follows)

module _ (r : RowRelation) (a : AllowsCreate r) (env : Env) (m : Manager) where
  give_up-Follows : (id : Bytes) → Follows (row_history r) (give_up env m id)
  unfolding give_up
  give_up-Follows id = search (
    acquire_rules,
    Follows-status r env id destroyed (λ s. a.use_allowed.rests s destroyed (λ e. cc)),
  )

  finish_active-Follows :
      (id : Bytes) (sess : Session) (workspace : Bytes) (expires : ℤ) (x : Result (Unit {0}))
      → Follows (row_history r) (finish_active env m id sess workspace expires x)
  unfolding finish_active
  finish_active-Follows id sess workspace expires (err e) = search (follows_rules, give_up-Follows)
  finish_active-Follows id sess workspace expires (ok _) = search follows_rules

  finish_running-Follows :
      (id : Bytes) (sess : Session) (workspace : Bytes) (expires : ℤ) (x : Result (Unit {0}))
      → Follows (row_history r) (finish_running env m id sess workspace expires x)
  unfolding finish_running
  finish_running-Follows id sess workspace expires (err e) = search (
    acquire_rules,
    Follows-status r env id destroyed (λ s. a.use_allowed.rests s destroyed (λ e. cc)),
  )
  finish_running-Follows id sess workspace expires (ok _) = search (
    follows_rules,
    finish_active-Follows,
    Follows-activity r env id sess.cwd expires
        (λ s now. a.use_allowed.lives s sess.cwd now expires),
  )

  finish-Follows :
      (id : Bytes) (sess : Session) (workspace : Bytes) (ttl : ℤ)
      → Follows (row_history r) (finish_pool_acquire env m id sess workspace ttl)
  unfolding finish_pool_acquire
  finish-Follows id sess workspace ttl =
      search (follows_rules, Follows-status r env id running a.wakes, finish_running-Follows) depth
        8

  bound-Follows :
      (image id : Bytes) (sess : Session) (req : CreateRequest) (ttl : ℤ) (detail : Detail)
      (x : Result (Unit {0}))
      → Follows (row_history r) (bound env m image id sess req ttl detail x)
  unfolding bound
  bound-Follows image id sess req ttl detail (err e) = search (follows_rules, give_up-Follows)
  bound-Follows image id sess req ttl detail (ok _) = search (acquire_rules, finish-Follows)

  mounted-Follows :
      (image id : Bytes) (sess : Session) (req : CreateRequest) (ttl : ℤ) (detail : Detail)
      (x : Result (Unit {0}))
      → Follows (row_history r) (mounted env m image id sess req ttl detail x)
  unfolding mounted
  mounted-Follows image id sess req ttl detail (err e) = search (follows_rules, give_up-Follows)
  mounted-Follows image id sess req ttl detail (ok _) = search (
    follows_rules,
    bound-Follows,
    Follows-workspace r env id req.workspace_id (λ s. a.binds s req.workspace_id),
  )

  bind-Follows :
      (image id : Bytes) (sess : Session) (req : CreateRequest) (ttl : ℤ) (detail : Detail)
      → Follows (row_history r) (bind_workspace env m image id sess req ttl detail)
  unfolding bind_workspace
  bind-Follows image id sess req ttl detail = search (acquire_rules, mounted-Follows)

  use_pooled-Follows :
      (image id : Bytes) (sess : Session) (req : CreateRequest) (ttl : ℤ)
      → Follows (row_history r) (use_pooled env m image id sess req ttl)
  unfolding use_pooled
  use_pooled-Follows image id sess req ttl =
      search (acquire_rules, finish-Follows, bind-Follows, give_up-Follows) depth 9

  with_row-Follows :
      (image id : Bytes) (req : CreateRequest) (ttl : ℤ) (x : Result (Option Session))
      → Follows (row_history r) (with_row env m image id req ttl x)
  unfolding with_row
  with_row-Follows image id req ttl (ok (some sess)) = use_pooled-Follows image id sess req ttl
  with_row-Follows image id req ttl _ = search follows_rules

  with_fallback_row-Follows :
      (image id : Bytes) (req : CreateRequest) (ttl : ℤ) (x : Result (Option Session))
      → Follows (row_history r) (with_fallback_row env m image id req ttl x)
  unfolding with_fallback_row
  with_fallback_row-Follows image id req ttl (ok (some sess)) = bind-Follows image id sess req ttl _
  with_fallback_row-Follows image id req ttl _ = search follows_rules

  with_fallback-Follows :
      (image : Bytes) (req : CreateRequest) (ttl : ℤ) (o : Option Bytes)
      → Follows (row_history r) (with_fallback env m image req ttl o)
  unfolding with_fallback
  with_fallback-Follows image req ttl none = search follows_rules
  with_fallback-Follows image req ttl (some id) =
      search (follows_rules, Follows-get_session r env, with_fallback_row-Follows)

  with_taken-Follows :
      (p : Pool) (image : Bytes) (req : CreateRequest) (ttl : ℤ) (o : Option Bytes)
      → Follows (row_history r) (with_taken env m p image req ttl o)
  unfolding with_taken
  with_taken-Follows p image req ttl none =
      search (follows_rules, Follows-get r, with_fallback-Follows)
  with_taken-Follows p image req ttl (some id) =
      search (follows_rules, Follows-get_session r env, with_row-Follows)

  pub Follows-acquire :
      (o : Option Pool) (image : Bytes) (req : CreateRequest) (ttl : ℤ)
      → Follows (row_history r) (acquire env m o image req ttl)
  unfolding acquire
  Follows-acquire none image req ttl = search follows_rules
  Follows-acquire (some p) image req ttl = search (follows_rules, Follows-get r, with_taken-Follows)
