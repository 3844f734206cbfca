-- ===== src/Session/Acquire/Ends.antt =====
-- The ways in which finishPoolAcquire ends.
use sandkasten.Base.{◌≡◌, refl, ◌∷◌, Option, none, some}
use sandkasten.Base.Int.{ℤ}
use sandkasten.Base.Text.{Bytes}
use sandkasten.World.{
  Session, running, destroyed, clock_read, sandbox_destroy, World, Env, Result, ok, err,
}
use sandkasten.World.Action.{attempt, call, ignore, ◌>>=◌}
use sandkasten.Store
use sandkasten.Session.{Manager, Info, expiry}
use sandkasten.Session.Acquire.{
  finish_active, finish_running, finish_pool_acquire, give_up, pooled_info, destroy_sandbox,
}
use sandkasten.Session.Acquire.Live.{IsLive, finish_running-IsLive}

-- The world with one more call: the destruction of the sandbox `id`.
abbrev pub removed : Bytes → World → World
removed id w = record w { history = sandbox_destroy id ∷ w.history }

-- A session that is live; or none, with the sandbox destroyed: as the last call, or as the last but
-- the one that writes the status `destroyed`.
pub data FinishEnds (env : Env) (id : Bytes) (r : Result (Option Info) × World) : Type 0 where
  live : (info : Info) → r.0 ≡ ok (some info) → info.id ≡ id → IsLive info r.1 → FinishEnds env id r
  not_woken :
      (w : World)
      → r ≡ (ok none, (Store.update_session_status env id destroyed (removed id w)).1)
      → FinishEnds env id r
  not_extended : (w : World) → r ≡ (ok none, removed id w) → FinishEnds env id r

module _ (env : Env) (m : Manager) (id : Bytes) (sess : Session) (workspace : Bytes) where
  active-Ends :
      (expires : ℤ) (w w' : World) (r : Result (Unit {0}))
      → Store.update_session_status env id running w ≡ (ok tt, w')
      → r ≡ (Store.update_session_activity env id sess.cwd expires w').0
      → FinishEnds env id (finish_running env m id sess workspace expires (ok tt) w')
  unfolding finish_running finish_active give_up ◌>>=◌ destroy_sandbox ignore
  active-Ends expires w w' (err e) h q = rw (← q) (not_extended _ refl)
  active-Ends expires w w' (ok u) h q =
      let (l, same) =
        finish_running-IsLive env m id sess workspace expires w w' (ok tt)
          (pooled_info env m sess id workspace expires)
          (Store.update_session_activity env id sess.cwd expires w').1 h (rw (← q) refl) in
      rw (← q) (live _ refl same l)

  running-Ends :
      (expires : ℤ) (w w' : World) (r : Result (Unit {0}))
      → Store.update_session_status env id running w ≡ (r, w')
      → FinishEnds env id (finish_running env m id sess workspace expires r w')
  unfolding finish_running ◌>>=◌ destroy_sandbox ignore
  running-Ends expires w w' (err e) h = not_woken w' refl
  running-Ends expires w w' (ok u) h = active-Ends expires w w' _ h refl

  -- finishPoolAcquire ends in one of two ways. Either it gives a session under the id that was taken
  -- from the pool, and its row is running with the directory and the expiry that the caller is told;
  -- or a write failed, it gives none, and the sandbox was destroyed.
  pub finish_pool_acquire_ends :
      (ttl : ℤ) (w : World) → FinishEnds env id (finish_pool_acquire env m id sess workspace ttl w)
  unfolding finish_pool_acquire ◌>>=◌ attempt call
  finish_pool_acquire_ends ttl w =
      let w1 : World = record w { history = clock_read ∷ w.history } in
      let x = Store.update_session_status env id running w1 in
      running-Ends (expiry (env.now w1.history) ttl) w1 x.1 x.0 refl
