-- ===== src/Session/Validate.antt =====
-- internal/session/exec.go: the check that every use of a session begins with, the lease that it ends
-- with, and the helpers on timeouts and directories.
pub mod Rows
pub mod Gate
use sandkasten.Base.{Bool, ◌||◌, not, Option, none, some, [], if◌then◌else◌}
use sandkasten.Base.Int.{ℤ, pos, ltb_ℤ}
use sandkasten.Base.Text.{Bytes, str_eq}
use sandkasten.Config.{Config}
use sandkasten.World.{
  Session, running, clock_read, Env, Error, not_found, not_running, session_expired,
}
use sandkasten.World.Action.{Action, pure, fail, call, ignore, ◌>>=◌, ◌>>◌}
use sandkasten.Store
use sandkasten.Store.{status_eq}
use sandkasten.Session.{Manager, expiry}

-- enforceMaxTimeout
unfoldable pub enforce_max_timeout : Config → ℤ → ℤ
enforce_max_timeout cfg timeout_ms =
    if not (ltb_ℤ (pos 0) timeout_ms) || ltb_ℤ cfg.max_exec_timeout_ms timeout_ms
    then cfg.max_exec_timeout_ms
    else timeout_ms

-- resolveCwd
unfoldable pub resolve_cwd : Bytes → Bytes → Bytes
resolve_cwd new_cwd current_cwd = if str_eq new_cwd [] then current_cwd else new_cwd

module _ (env : Env) (m : Manager) where
  unfoldable pub unexpired : Bytes → Session → ℤ → Action Session
  unexpired id sess now = if ltb_ℤ sess.expires_at now then fail (session_expired id) else pure sess

  unfoldable pub usable : Bytes → Option Session → Action Session
  unfolding unexpired
  usable id none = fail (not_found id)
  usable id (some sess) =
      if not (status_eq sess.status running)
      then fail (not_running id sess.status)
      else (do now ← call clock_read env.now; unexpired id sess now)

  -- validateSession
  unfoldable pub validate_session : Bytes → Action Session
  unfolding usable
  validate_session id = do row ← Store.get_session env id; usable id row

  -- extendSessionLease: an error of the store is dropped.
  unfoldable pub extend_session_lease : Bytes → Bytes → Action (Unit {0})
  extend_session_lease id cwd = do
    now ← call clock_read env.now
    ignore (Store.update_session_activity env id cwd (expiry now m.cfg.session_ttl_seconds))
