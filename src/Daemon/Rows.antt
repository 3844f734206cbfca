-- ===== src/Daemon/Rows.antt =====
-- What a row of the table can become over any history of the daemon.
use sandkasten.Base.{◌≡◌, ◌≢◌, refl, ◌∙◌, true, List, [], ◌∷◌, Option, none, some, All, arith}
use sandkasten.Base.Int.{ℤ}
use sandkasten.Base.Text.{Bytes}
use sandkasten.World.{Session, running, Env, World}
use sandkasten.World.Action.Follows.{at}
use sandkasten.Store.{find_row, set_activity}
use sandkasten.Store.RowHistory.{RowRelation, KeepsRows, KeepsRows-refl, KeepsRows-trans}
use sandkasten.Store.RowRules.{AllowsUse, AllowsCreate}
use sandkasten.Pool.{Pool}
use sandkasten.Pool.Rows.{Follows-refill}
use sandkasten.Session.{Manager}
use sandkasten.Session.Create.Rows.{Follows-create}
use sandkasten.Session.Exec.Rows.{Follows-exec_command, Follows-exec_stream}
use sandkasten.Session.Files.Rows.{Follows-write_file, Follows-read_file}
use sandkasten.Session.Query.Rows.{Follows-destroy}
use sandkasten.Reaper.Rows.{Follows-reap_expired, Follows-reconcile}
use sandkasten.Daemon.{
  Call, creates, execs, streams, writes, reads, destroys, refills, reaps, reconciles, refill_pool,
  step, run,
}

-- What belongs to the sandbox of a session.
pub record SameSandbox (s t : Session) : Type 0 where
  pub same_id : t.id ≡ s.id
  pub same_image : t.image ≡ s.image
  pub same_pid : t.init_pid ≡ s.init_pid
  pub same_cgroup : t.cgroup_path ≡ s.cgroup_path
  pub same_start : t.created_at ≡ s.created_at

abbrev sandbox_relation : RowRelation
sandbox_relation = record {
  rel = SameSandbox;
  rel_refl = λ s. record {
    same_id = refl;
    same_image = refl;
    same_pid = refl;
    same_cgroup = refl;
    same_start = refl;
  };
  rel_trans = λ s t u h k. record {
    same_id = k.same_id ∙ h.same_id;
    same_image = k.same_image ∙ h.same_image;
    same_pid = k.same_pid ∙ h.same_pid;
    same_cgroup = k.same_cgroup ∙ h.same_cgroup;
    same_start = k.same_start ∙ h.same_start;
  };
}

sandbox_allowed : AllowsCreate sandbox_relation
unfolding set_activity
sandbox_allowed = record {
  use_allowed = record {
    rests = λ s status h. ground arith;
    lives = λ s cwd now expires. ground arith;
  };
  wakes = λ s. ground arith;
  binds = λ s workspace. ground arith;
}

-- A session that does not run is not running later.
abbrev waking_relation : RowRelation
waking_relation = record {
  rel = λ s t. t.status ≡ running → s.status ≡ running;
  rel_refl = λ s h. h;
  rel_trans = λ s t u h k e. h (k e);
}

waking_allowed : AllowsUse waking_relation
unfolding set_activity
waking_allowed = record { rests = λ s status h e. absurd (h e); lives = λ s cwd now expires h. h }

-- The calls that make no session.
abbrev pub IsUse : Call → Type 0
IsUse (creates req) = ⊥
IsUse c = Unit {0}

module _ (r : RowRelation) (env : Env) where
  refill-KeepsRows :
      (m : Manager) (o : Option Pool) (image workspace : Bytes) (count : ℤ) (w : World)
      → KeepsRows r w (refill_pool env m o image workspace count w)
  unfolding refill_pool
  refill-KeepsRows m none image workspace count w = KeepsRows-refl r w
  refill-KeepsRows m (some p) image workspace count w =
      at _ (Follows-refill r env p image workspace count) w

  module _ (a : AllowsUse r) (m : Manager) where
    use-KeepsRows : (c : Call) → IsUse c → (w : World) → KeepsRows r w (step env m c w)
    unfolding step
    use-KeepsRows (creates req) h w = absurd h
    use-KeepsRows (execs id cmd t raw) h w = at _ (Follows-exec_command r a env m id cmd t raw) w
    use-KeepsRows (streams id cmd t raw) h w = at _ (Follows-exec_stream r a env m id cmd t raw) w
    use-KeepsRows (writes id path c b) h w = at _ (Follows-write_file r a env m id path c b) w
    use-KeepsRows (reads id path n) h w = at _ (Follows-read_file r a env m id path n) w
    use-KeepsRows (destroys id) h w = at _ (Follows-destroy r a env m id) w
    use-KeepsRows (refills image workspace n) h w = refill-KeepsRows m m.pool image workspace n w
    use-KeepsRows reaps h w = at _ (Follows-reap_expired r a env true) w
    use-KeepsRows reconciles h w = at _ (Follows-reconcile r a env true) w

    uses-KeepsRows : (cs : List Call) → All IsUse cs → (w : World) → KeepsRows r w (run env m cs w)
    unfolding run
    uses-KeepsRows [] h w = KeepsRows-refl r w
    uses-KeepsRows (c ∷ cs) (h, hs) w =
        KeepsRows-trans r w (step env m c w) (run env m cs (step env m c w)) (use-KeepsRows c h w)
          (uses-KeepsRows cs hs (step env m c w))

  module _ (a : AllowsCreate r) (m : Manager) where
    step-KeepsRows : (c : Call) (w : World) → KeepsRows r w (step env m c w)
    step-KeepsRows (creates req) w = unfold step in at _ (Follows-create r a env m req) w
    step-KeepsRows (execs id cmd t raw) w = use-KeepsRows a.use_allowed m _ tt w
    step-KeepsRows (streams id cmd t raw) w = use-KeepsRows a.use_allowed m _ tt w
    step-KeepsRows (writes id path c b) w = use-KeepsRows a.use_allowed m _ tt w
    step-KeepsRows (reads id path n) w = use-KeepsRows a.use_allowed m _ tt w
    step-KeepsRows (destroys id) w = use-KeepsRows a.use_allowed m _ tt w
    step-KeepsRows (refills image workspace n) w = use-KeepsRows a.use_allowed m _ tt w
    step-KeepsRows reaps w = use-KeepsRows a.use_allowed m _ tt w
    step-KeepsRows reconciles w = use-KeepsRows a.use_allowed m _ tt w

    run-KeepsRows : (cs : List Call) (w : World) → KeepsRows r w (run env m cs w)
    unfolding run
    run-KeepsRows [] w = KeepsRows-refl r w
    run-KeepsRows (c ∷ cs) w =
        KeepsRows-trans r w (step env m c w) (run env m cs (step env m c w)) (step-KeepsRows c w)
          (run-KeepsRows cs (step env m c w))

-- Whatever the daemon is asked and whatever fails, a session that is stored stays stored, under its
-- id, with the image, the process, the cgroup and the time of creation that it was stored with.
pub run-SameSandbox :
    (env : Env) (m : Manager) (cs : List Call) (w : World) (id : Bytes) (s : Session)
    → find_row id w.table ≡ some s
    → (t : Session) × (find_row id (run env m cs w).table ≡ some t) × SameSandbox s t
run-SameSandbox env m cs w id s e = run-KeepsRows sandbox_relation env sandbox_allowed m cs w id s e

-- A session whose status is not `running` (idle in the pool, destroyed, expired or crashed) does not
-- get that status from commands, file access, destroys, refills, reaping or reconciling, in any order
-- and whatever fails: only `Create` can wake it.
pub run-no_waking :
    (env : Env) (m : Manager) (cs : List Call) (w : World) (id : Bytes) (s : Session)
    → All IsUse cs
    → find_row id w.table ≡ some s
    → s.status ≢ running
    → (t : Session) × (find_row id (run env m cs w).table ≡ some t) × (t.status ≢ running)
run-no_waking env m cs w id s uses e asleep =
    let (t, found, back) = uses-KeepsRows waking_relation env waking_allowed m cs uses w id s e in
    (t, found, λ awake. asleep (back awake))
