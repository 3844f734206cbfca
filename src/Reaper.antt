-- ===== src/Reaper.antt =====
-- internal/reaper/reaper.go. Log lines are not modelled. `has_manager` tells whether
-- SetSessionManager was called, so that the mutex of a session is dropped with it.
pub mod Rows
use sandkasten.Base.{
  ℕ, zero, suc, Bool, true, false, ◌||◌, Option, none, some, List, [], ◌∷◌, if◌then◌else◌,
}
use sandkasten.Base.Text.{Bytes}
use sandkasten.World.{
  Session, Status, running, pool_idle, expired, crashed, sandbox_destroy, sandbox_probe,
  dirs_listed, Env, Error, Result, ok, err,
}
use sandkasten.World.Action.{Action, pure, attempt, call, modify, ignore, ◌>>=◌, ◌>>◌}
use sandkasten.Store
use sandkasten.Store.{status_eq}
use sandkasten.Session.Exec.{set_lock}

module _ (env : Env) (has_manager : Bool) where
  -- CleanupSessionLock, if there is a manager.
  cleanup_lock : Bytes → Action (Unit {0})
  cleanup_lock id = if has_manager then modify (set_lock id false) else pure tt

  -- The body that both loops share: destroy the sandbox, note the status, drop the mutex.
  retire : Status → Bytes → Action (Unit {0})
  unfolding cleanup_lock
  retire status id = do
    failed ← call (sandbox_destroy id) env.destroy_fails
    ignore (Store.update_session_status env id status)
    cleanup_lock id

  reap_each : List Session → Action (Unit {0})
  reap_each [] = pure tt
  reap_each (s ∷ l) = do retire expired s.id; reap_each l

  reap_listed : Result (List Session) → Action (Unit {0})
  unfolding reap_each
  reap_listed (err e) = pure tt
  reap_listed (ok l) = reap_each l

  -- reapExpired
  pub reap_expired : Action (Unit {0})
  unfolding reap_listed
  reap_expired = do l ← attempt (Store.list_expired_sessions env); reap_listed l

  -- One session of the loop of `reconcile`, by whether its process runs.
  reconcile_probed : Bytes → Option Bool → Action (Unit {0})
  unfolding retire
  reconcile_probed id (some false) = retire crashed id
  reconcile_probed id _ = pure tt

  reconcile_each : List Session → Action (Unit {0})
  unfolding reconcile_probed
  reconcile_each [] = pure tt
  reconcile_each (s ∷ l) = do
    alive ← call (sandbox_probe s.id) env.is_running
    reconcile_probed s.id alive
    reconcile_each l

  -- One directory of the loop of `reconcileOrphans`, by its row.
  reconcile_dir : Bytes → Result (Option Session) → Action (Unit {0})
  unfolding cleanup_lock
  reconcile_dir id (err e) = pure tt
  reconcile_dir id (ok none) = do failed ← call (sandbox_destroy id) env.destroy_fails; pure tt
  reconcile_dir id (ok (some s)) =
      if status_eq s.status running || status_eq s.status pool_idle
      then pure tt
      else (do failed ← call (sandbox_destroy id) env.destroy_fails; cleanup_lock id)

  reconcile_dirs : List Bytes → Action (Unit {0})
  unfolding reconcile_dir
  reconcile_dirs [] = pure tt
  reconcile_dirs (id ∷ l) = do
    row ← attempt (Store.get_session env id)
    reconcile_dir id row
    reconcile_dirs l

  found_dirs : Option (List Bytes) → Action (Unit {0})
  unfolding reconcile_dirs
  found_dirs none = pure tt
  found_dirs (some ids) = reconcile_dirs ids

  -- reconcileOrphans
  pub reconcile_orphans : Action (Unit {0})
  unfolding found_dirs
  reconcile_orphans = do dirs ← call dirs_listed env.session_dirs; found_dirs dirs

  reconcile_listed : Result (List Session) → Action (Unit {0})
  unfolding reconcile_each reconcile_orphans
  reconcile_listed (err e) = pure tt
  reconcile_listed (ok l) = do reconcile_each l; reconcile_orphans

  -- reconcile
  pub reconcile : Action (Unit {0})
  unfolding reconcile_listed
  reconcile = do l ← attempt (Store.list_running_sessions env); reconcile_listed l

  -- The ticks that `Run` sees before its context is done.
  reap_ticks : ℕ → Action (Unit {0})
  reap_ticks zero = pure tt
  reap_ticks (suc n) = do reap_expired; reap_ticks n

  -- Run
  pub run : ℕ → Action (Unit {0})
  unfolding reap_ticks
  run ticks = do reconcile; reap_ticks ticks
