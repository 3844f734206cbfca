-- ===== src/Session/Create/Cold.antt =====
-- How a cold start ends: with a session that is stored as running, or with nothing stored and no
-- sandbox left behind.
use sandkasten.Base.{◌≡◌, refl, ◌∙◌, subst, Option, none, some, ◌∷◌, arith, take}
use sandkasten.Base.Int.{ℤ}
use sandkasten.Base.Text.{Bytes, str_eq_refl}
use sandkasten.World.{
  Session, running, Sandbox, History, sandbox_destroy, id_made, World, Env, Error, Result, ok, err,
  create_failed,
}
use sandkasten.World.Action.{fail, pure, call, ◌>>=◌}
use sandkasten.Store
use sandkasten.Store.Keys.{find_row-insert_row}
use sandkasten.Store.Outcomes.{Inserted, inserted, rejected, create_session-Inserted}
use sandkasten.Pool.{Pool, workspace_dir}
use sandkasten.Session.{Manager, CreateRequest, Detail, Info, cold, expiry}
use sandkasten.Session.Acquire.{destroy_sandbox, start_refill}
use sandkasten.Session.Acquire.Live.{IsLive}
use sandkasten.Session.Create.{refill_after, stored_cold, made_cold, create_cold, cold_session}

module _ (env : Env) (m : Manager) where
  table-refill_after :
      (o : Option Pool) (image workspace : Bytes) (w : World)
      → ((refill_after env m o image workspace w).0 ≡ ok tt)
        × ((refill_after env m o image workspace w).1.table ≡ w.table)
  unfolding refill_after start_refill pure call
  table-refill_after none image workspace w = (refl, refl)
  table-refill_after (some p) image workspace w = ground arith

  -- What a cold start has done when it ends, from the world in which the sandbox was asked for.
  data Ended (sess : Session) (w : World) (r : Result Info × World) : Type 0 where
    started : (info : Info) → r.0 ≡ ok info → IsLive info r.1 → info.id ≡ sess.id → Ended sess w r
    undone :
        (e : Error) (h : History)
        → r ≡ (err e, record w { history = sandbox_destroy sess.id ∷ h })
        → Ended sess w r

  -- The session that the caller of a cold start is told of.
  cold_info : Session → Detail → Info
  cold_info sess detail = record {
    id = sess.id;
    image = sess.image;
    status = running;
    cwd = workspace_dir;
    source = cold;
    detail = detail;
    workspace_id = sess.workspace_id;
    created_at = sess.created_at;
    expires_at = sess.expires_at;
  }

  cold_info-IsLive :
      (sess : Session) (detail : Detail) (t u : Store.Table) (w : World)
      → sess.status ≡ running
      → sess.cwd ≡ workspace_dir
      → Store.insert_row sess t ≡ some u
      → w.table ≡ u
      → IsLive (cold_info sess detail) w
  unfolding cold_info
  cold_info-IsLive sess detail t u w run dir ins e = record {
    row = sess;
    stored = rw e (ground (arith, find_row-insert_row sess.id sess t u ins, str_eq_refl sess.id));
    runs = run;
    told_status = refl;
    expiry_told = refl;
    cwd_told = dir;
  }

  stored-Ended :
      (sess : Session) (detail : Detail) (w : World) (x : Result (Unit {0}) × World)
      → sess.status ≡ running
      → sess.cwd ≡ workspace_dir
      → Inserted sess w x
      → Ended sess w (stored_cold env m sess detail x.0 x.1)
  unfolding stored_cold ◌>>=◌ destroy_sandbox cold_info
  stored-Ended sess detail w x run dir (rejected e h q) = rw q (undone e h refl)
  stored-Ended sess detail w x run dir (inserted t h c q) =
      let w' : World = record w { table = t; history = h } in
      let (fine, same) = table-refill_after m.pool sess.image sess.workspace_id w' in
      rw q (
        rw fine (
          started (cold_info sess detail) refl
            (cold_info-IsLive sess detail w.table t _ run dir c same) refl))

  made-Ended :
      (id image : Bytes) (req : CreateRequest) (now ttl : ℤ) (detail : Detail) (sandbox : Sandbox)
      (w : World)
      → Ended
          (cold_session env m id image req.workspace_id sandbox now (expiry now ttl))
          w
          (made_cold env m id image req now ttl detail (some sandbox) w)
  unfolding made_cold ◌>>=◌
  made-Ended id image req now ttl detail sandbox w =
      let sess = cold_session env m id image req.workspace_id sandbox now (expiry now ttl) in
      stored-Ended sess detail w _ (unfold cold_session in refl) (unfold cold_session in refl)
        (create_session-Inserted env sess w)

-- The id that a cold start draws.
abbrev pub new_id : Env → World → Bytes
new_id env w = take 12 (env.uuid (id_made ∷ w.history))

-- The three ends of a cold start.
pub data ColdEnds (env : Env) (w : World) (r : Result Info × World) : Type 0 where
  live : (info : Info) → r.0 ≡ ok info → info.id ≡ new_id env w → IsLive info r.1 → ColdEnds env w r
  not_made :
      (h : History)
      → env.create h ≡ none
      → r ≡ (err create_failed, record w { history = h })
      → ColdEnds env w r
  removed :
      (e : Error) (h : History)
      → r ≡ (err e, record w { history = sandbox_destroy (new_id env w) ∷ h })
      → ColdEnds env w r

module _ (env : Env) (m : Manager) (w : World) where
  from_made :
      (sess : Session) (h : History) (r : Result Info × World)
      → sess.id ≡ new_id env w
      → Ended env m sess (record w { history = h }) r
      → ColdEnds env w r
  from_made sess h r same (started info e l k) = live info e (k ∙ same) l
  from_made sess h r same (undone e g q) =
      removed e g (subst (λ i. r ≡ (err e, record w { history = sandbox_destroy i ∷ g })) same q)

  made-ColdEnds :
      (image : Bytes) (req : CreateRequest) (now ttl : ℤ) (detail : Detail) (h : History)
      (o : Option Sandbox)
      → env.create h ≡ o
      → ColdEnds env w
          (made_cold env m (new_id env w) image req now ttl detail o (record w { history = h }))
  made-ColdEnds image req now ttl detail h none e = unfold made_cold fail in not_made h e refl
  made-ColdEnds image req now ttl detail h (some x) e =
      from_made (cold_session env m (new_id env w) image req.workspace_id x now (expiry now ttl)) h
        _ (unfold cold_session in refl)
        (made-Ended env m (new_id env w) image req now ttl detail x (record w { history = h }))

-- A cold start ends in one of three ways: the session is stored as running under the fresh id, with
-- the status, expiry and directory that the caller is told; or the runtime made no sandbox and
-- nothing is stored; or storing the session failed, nothing is stored, and the last call made is the
-- destruction of the new sandbox. So no sandbox is left without a row.
pub create_cold_ends :
    (env : Env) (m : Manager) (image : Bytes) (req : CreateRequest) (ttl : ℤ) (detail : Detail)
    (w : World)
    → ColdEnds env w (create_cold env m image req ttl detail w)
unfolding create_cold ◌>>=◌
create_cold_ends env m image req ttl detail w =
    made-ColdEnds env m w image req _ ttl detail _ _ refl
