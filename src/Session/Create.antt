-- ===== src/Session/Create.antt =====
-- internal/session/create.go: `Create`, from the image policy to the cold start.
pub mod Rows
pub mod Cold
use sandkasten.Base.{◌||◌, not, Option, none, some, [], take, if◌then◌else◌}
use sandkasten.Base.Int.{ℤ, pos}
use sandkasten.Base.Text.{Bytes, str_eq}
use sandkasten.World.{
  Session, running, Sandbox, sandbox_create, clock_read, id_made, Env, invalid_image, create_failed,
  Result, ok, err,
}
use sandkasten.World.Action.{Action, pure, fail, attempt, call, ◌>>=◌, ◌>>◌}
use sandkasten.Store
use sandkasten.Pool
use sandkasten.Pool.{Pool, is_listed}
use sandkasten.Session.{
  Manager, CreateRequest, cold, Detail, Acquired, served, unserved, Info, is_image_name_safe,
  is_image_allowed, resolve_image, resolve_ttl, expiry,
}
use sandkasten.Session.Acquire.{ensure_workspace, acquire, destroy_sandbox, start_refill}

module _ (env : Env) (m : Manager) where
  cold_session : Bytes → Bytes → Bytes → Sandbox → ℤ → ℤ → Session
  cold_session id image workspace sandbox now expires = record {
    id = id;
    image = image;
    init_pid = sandbox.init_pid;
    cgroup_path = sandbox.cgroup_path;
    status = running;
    cwd = Pool.workspace_dir;
    workspace_id = workspace;
    created_at = now;
    expires_at = expires;
    last_activity = now;
  }

  -- The background refill after a cold start.
  refill_after : Option Pool → Bytes → Bytes → Action (Unit {0})
  unfolding start_refill
  refill_after none image workspace = pure tt
  refill_after (some p) image workspace =
      if str_eq workspace []
      then start_refill env m image [] (pos 0)
      else start_refill env m image workspace (pos 1)

  stored_cold : Session → Detail → Result (Unit {0}) → Action Info
  unfolding destroy_sandbox refill_after
  stored_cold sess detail (err e) = do destroy_sandbox env m sess.id; fail e
  stored_cold sess detail (ok _) = do
    refill_after m.pool sess.image sess.workspace_id
    pure (record {
      id = sess.id;
      image = sess.image;
      status = running;
      cwd = Pool.workspace_dir;
      source = cold;
      detail = detail;
      workspace_id = sess.workspace_id;
      created_at = sess.created_at;
      expires_at = sess.expires_at;
    })

  made_cold : Bytes → Bytes → CreateRequest → ℤ → ℤ → Detail → Option Sandbox → Action Info
  unfolding stored_cold
  made_cold id image req now ttl detail none = fail create_failed
  made_cold id image req now ttl detail (some sandbox) = do
    let sess = cold_session id image req.workspace_id sandbox now (expiry now ttl)
    stored ← attempt (Store.create_session env sess)
    stored_cold sess detail stored

  -- The part of `Create` that makes a new sandbox.
  pub create_cold : Bytes → CreateRequest → ℤ → Detail → Action Info
  unfolding made_cold
  create_cold image req ttl detail = do
    text ← call id_made env.uuid
    let id = take 12 text
    now ← call clock_read env.now
    sandbox ←
        call
          (sandbox_create
            (record { session_id = id; image = image; workspace_id = req.workspace_id }))
          env.create
    made_cold id image req now ttl detail sandbox

  or_cold : Bytes → CreateRequest → ℤ → Acquired → Action Info
  or_cold image req ttl (served info) = pure info
  or_cold image req ttl (unserved detail) = create_cold image req ttl detail

  -- Create
  pub create : CreateRequest → Action Info
  unfolding or_cold
  create req =
      let image = resolve_image m.cfg req.image in
      let ttl = resolve_ttl m.cfg req.ttl_seconds in
      if not (is_image_name_safe image) || not (is_image_allowed m.cfg image)
      then fail (invalid_image image)
      else (do
        ensure_workspace env m req.workspace_id
        acquired ← acquire env m m.pool image req ttl
        or_cold image req ttl acquired)
