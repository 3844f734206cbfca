-- ===== src/Session/Query.antt =====
-- internal/session/query.go: `Get`, `GetStats`, `List` and `Destroy`.
pub mod Rows
use sandkasten.Base.{Bool, false, Option, none, some, List, map}
use sandkasten.Base.Text.{Bytes}
use sandkasten.World.{
  Session, Status, destroying, destroyed, Stats, sandbox_stats, sandbox_destroy, Env, Error,
  not_found, no_row, stats_failed,
}
use sandkasten.World.Action.{Action, pure, fail, call, modify, ignore, ◌>>=◌, ◌>>◌}
use sandkasten.Store
use sandkasten.Session.{Manager, Info, unset, unstated}
use sandkasten.Session.Exec.{set_lock}
use sandkasten.Session.Acquire.{destroy_sandbox}

unfoldable pub info_of : Session → Info
info_of s = record {
  id = s.id;
  image = s.image;
  status = s.status;
  cwd = s.cwd;
  source = unstated;
  detail = unset;
  workspace_id = s.workspace_id;
  created_at = s.created_at;
  expires_at = s.expires_at;
}

-- The row, or the error that its absence gives.
unfoldable pub or_error : Error → Option Session → Action Session
or_error e none = fail e
or_error e (some s) = pure s

module _ (env : Env) (m : Manager) where
  -- Get
  unfoldable pub get : Bytes → Action Info
  get id = do row ← Store.get_session env id; s ← or_error (not_found id) row; pure (info_of s)

  answered : Option Stats → Action Stats
  answered none = fail stats_failed
  answered (some stats) = pure stats

  -- GetStats
  pub get_stats : Bytes → Action Stats
  unfolding answered
  get_stats id = do
    row ← Store.get_session env id
    s ← or_error (not_found id) row
    stats ← call (sandbox_stats s.id) env.stats
    answered stats

  -- List
  pub list : Action (List Info)
  list = do rows ← Store.list_sessions env; pure (map info_of rows)

  -- Destroy: its error for an unknown session is not the one that `Get` gives.
  unfoldable pub destroy : Bytes → Action (Unit {0})
  destroy id = do
    row ← Store.get_session env id
    s ← or_error (no_row id) row
    ignore (Store.update_session_status env id destroying)
    destroy_sandbox env m id
    ignore (Store.update_session_status env id destroyed)
    modify (set_lock id false)
