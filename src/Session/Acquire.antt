-- ===== src/Session/Acquire.antt =====
-- internal/session/create.go: the workspace of a session, and `Create`'s attempt to take one from the
-- pool, with finishPoolAcquire.
pub mod Rows
pub mod Live
pub mod Ends
use sandkasten.Base.{Bool, true, false, ◌&&◌, ◌||◌, not, Option, none, some, [], if◌then◌else◌}
use sandkasten.Base.Int.{ℤ, pos}
use sandkasten.Base.Text.{Bytes, str_eq}
use sandkasten.World.{
  Session, running, destroyed, sandbox_destroy, workspace_mount, workspace_exists, workspace_create,
  refill_started, clock_read, Env, create_failed, workspace_check_failed, workspace_create_failed,
  Result, ok, err,
}
use sandkasten.World.Action.{Action, pure, fail, attempt, call, ignore, call_or_fail, ◌>>=◌, ◌>>◌}
use sandkasten.Store
use sandkasten.Pool
use sandkasten.Pool.{Pool, is_listed}
use sandkasten.Session.{
  Manager, CreateRequest, from_pool, Detail, unset, pool_empty, pool_finish_acquire_failed,
  pool_workspace_mismatch, pool_mount_workspace_failed, pool_update_workspace_failed,
  pool_session_lookup_failed, Acquired, served, unserved, Info, expiry,
}

module _ (env : Env) (m : Manager) where
  make_workspace : Bytes → Option Bool → Action (Unit {0})
  make_workspace workspace none = fail workspace_check_failed
  make_workspace workspace (some true) = pure tt
  make_workspace workspace (some false) =
      call_or_fail (workspace_create workspace) env.workspace_create_fails workspace_create_failed

  pub ensure_workspace : Bytes → Action (Unit {0})
  unfolding make_workspace
  ensure_workspace workspace =
      if str_eq workspace [] || not m.cfg.workspace_enabled
      then pure tt
      else if not m.workspaces
      then pure tt
      else (do
        exists ← call (workspace_exists workspace) env.workspace_exists
        make_workspace workspace exists)

  -- m.runtime.Destroy(ctx, sessionID), whose error `Create` drops.
  unfoldable pub destroy_sandbox : Bytes → Action (Unit {0})
  destroy_sandbox id = do failed ← call (sandbox_destroy id) env.destroy_fails; pure tt

  -- The two calls by which `Create` gives up a pooled session.
  give_up : Bytes → Action (Unit {0})
  unfolding destroy_sandbox
  give_up id = do ignore (Store.update_session_status env id destroyed); destroy_sandbox id

  -- go m.pool.Refill(…): the refill itself runs later.
  unfoldable pub start_refill : Bytes → Bytes → ℤ → Action (Unit {0})
  start_refill image workspace count = call (refill_started image workspace count) (λ _. tt)

  pooled_info : Session → Bytes → Bytes → ℤ → Info
  pooled_info sess id workspace expires = record {
    id = id;
    image = sess.image;
    status = running;
    cwd = sess.cwd;
    source = from_pool;
    detail = unset;
    workspace_id = workspace;
    created_at = sess.created_at;
    expires_at = expires;
  }

  finish_active : Bytes → Session → Bytes → ℤ → Result (Unit {0}) → Action (Option Info)
  finish_active id sess workspace expires (err e) = do give_up id; pure none
  finish_active id sess workspace expires (ok _) =
      pure (some (pooled_info sess id workspace expires))

  pub finish_running : Bytes → Session → Bytes → ℤ → Result (Unit {0}) → Action (Option Info)
  unfolding finish_active
  finish_running id sess workspace expires (err e) = do
    destroy_sandbox id
    ignore (Store.update_session_status env id destroyed)
    pure none
  finish_running id sess workspace expires (ok _) = do
    active ← attempt (Store.update_session_activity env id sess.cwd expires)
    finish_active id sess workspace expires active

  -- finishPoolAcquire
  pub finish_pool_acquire : Bytes → Session → Bytes → ℤ → Action (Option Info)
  unfolding finish_running
  finish_pool_acquire id sess workspace ttl = do
    now ← call clock_read env.now
    let expires = expiry now ttl
    status ← attempt (Store.update_session_status env id running)
    finish_running id sess workspace expires status

  -- A session that `finishPoolAcquire` gave is replaced in the pool.
  replace : Bytes → Bytes → ℤ → Detail → Option Info → Action Acquired
  unfolding start_refill
  replace image workspace count detail none = pure (unserved detail)
  replace image workspace count detail (some info) = do
    start_refill image workspace count
    pure (served info)

  mount_workspace : Bytes → Bytes → Action (Unit {0})
  mount_workspace id workspace =
      call_or_fail (workspace_mount id workspace) env.mount_fails create_failed

  bound : Bytes → Bytes → Session → CreateRequest → ℤ → Detail → Result (Unit {0}) → Action Acquired
  unfolding replace
  bound image id sess req ttl detail (err e) = do
    give_up id
    pure (unserved pool_update_workspace_failed)
  bound image id sess req ttl detail (ok _) = do
    info ← finish_pool_acquire id sess req.workspace_id ttl
    replace image req.workspace_id (pos 1) detail info

  mounted :
      Bytes → Bytes → Session → CreateRequest → ℤ → Detail → Result (Unit {0}) → Action Acquired
  unfolding bound
  mounted image id sess req ttl detail (err e) = do
    give_up id
    pure (unserved pool_mount_workspace_failed)
  mounted image id sess req ttl detail (ok _) = do
    updated ← attempt (Store.update_session_workspace env id req.workspace_id)
    bound image id sess req ttl detail updated

  -- A session that was made without a workspace is given one before it is used.
  bind_workspace : Bytes → Bytes → Session → CreateRequest → ℤ → Detail → Action Acquired
  unfolding mounted
  bind_workspace image id sess req ttl detail = do
    done ← attempt (mount_workspace id req.workspace_id)
    mounted image id sess req ttl detail done

  -- The three uses of a pooled session whose row was found.
  use_pooled : Bytes → Bytes → Session → CreateRequest → ℤ → Action Acquired
  unfolding replace start_refill
  use_pooled image id sess req ttl =
      let workspace = req.workspace_id in
      if str_eq workspace []
      then (do
        info ← finish_pool_acquire id sess workspace ttl
        replace image [] (pos 0) pool_finish_acquire_failed info)
      else if str_eq sess.workspace_id workspace
      then (do
        info ← finish_pool_acquire id sess workspace ttl
        replace image workspace (pos 1) pool_finish_acquire_failed info)
      else if not (str_eq sess.workspace_id [])
      then (do
        give_up id
        start_refill image sess.workspace_id (pos 1)
        pure (unserved pool_workspace_mismatch))
      else bind_workspace image id sess req ttl pool_finish_acquire_failed

  with_row : Bytes → Bytes → CreateRequest → ℤ → Result (Option Session) → Action Acquired
  unfolding use_pooled
  with_row image id req ttl (ok (some sess)) = use_pooled image id sess req ttl
  with_row image id req ttl _ = pure (unserved pool_session_lookup_failed)

  with_fallback_row : Bytes → Bytes → CreateRequest → ℤ → Result (Option Session) → Action Acquired
  unfolding bind_workspace
  with_fallback_row image id req ttl (ok (some sess)) =
      bind_workspace image id sess req ttl pool_empty
  with_fallback_row image id req ttl _ = pure (unserved pool_empty)

  with_fallback : Bytes → CreateRequest → ℤ → Option Bytes → Action Acquired
  unfolding with_fallback_row
  with_fallback image req ttl none = pure (unserved pool_empty)
  with_fallback image req ttl (some id) = do
    row ← attempt (Store.get_session env id)
    with_fallback_row image id req ttl row

  -- What follows `pool.Get(image, workspaceID)`.
  with_taken : Pool → Bytes → CreateRequest → ℤ → Option Bytes → Action Acquired
  unfolding with_row with_fallback
  with_taken p image req ttl (some id) = do
    row ← attempt (Store.get_session env id)
    with_row image id req ttl row
  with_taken p image req ttl none =
      if not (str_eq req.workspace_id []) && not m.cfg.readonly_rootfs
      then (do taken ← Pool.get p image []; with_fallback image req ttl taken)
      else pure (unserved pool_empty)

  pub acquire : Option Pool → Bytes → CreateRequest → ℤ → Action Acquired
  unfolding with_taken
  acquire none image req ttl = pure (unserved unset)
  acquire (some p) image req ttl = do
    taken ← Pool.get p image req.workspace_id
    with_taken p image req ttl taken
