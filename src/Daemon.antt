-- ===== src/Daemon.antt =====
-- cmd/sandkasten/main.go wires the manager, the pool and the reaper over one store. A history of the
-- daemon is a list of their calls, each run to its end before the next: the mutexes of the sources
-- are what makes a call one step, and interleavings inside a call are not modelled.
pub mod Rows
pub mod Start
use sandkasten.Base.{Bool, true, List, [], ◌∷◌, Option, none, some}
use sandkasten.Base.Int.{ℤ}
use sandkasten.Base.Text.{Bytes}
use sandkasten.World.{Env, World}
use sandkasten.Pool.{Pool, refill}
use sandkasten.Session.{Manager, CreateRequest}
use sandkasten.Session.Create.{create}
use sandkasten.Session.Exec.{exec_command, exec_stream}
use sandkasten.Session.Files.{write_file, read_file}
use sandkasten.Session.Query.{destroy}
use sandkasten.Reaper.{reap_expired, reconcile}

pub data Call : Type 0 where
  creates : CreateRequest → Call
  execs streams : Bytes → Bytes → ℤ → Bool → Call
  writes : Bytes → Bytes → Bytes → Bool → Call
  reads : Bytes → Bytes → ℤ → Call
  destroys : Bytes → Call
  refills : Bytes → Bytes → ℤ → Call
  reaps reconciles : Call

module _ (env : Env) (m : Manager) where
  refill_pool : Option Pool → Bytes → Bytes → ℤ → World → World
  refill_pool none image workspace count w = w
  refill_pool (some p) image workspace count w = (refill env p image workspace count w).1

  pub step : Call → World → World
  unfolding refill_pool
  step (creates req) w = (create env m req w).1
  step (execs id cmd timeout_ms raw) w = (exec_command env m id cmd timeout_ms raw w).1
  step (streams id cmd timeout_ms raw) w = (exec_stream env m id cmd timeout_ms raw w).1
  step (writes id path content is_base64) w = (write_file env m id path content is_base64 w).1
  step (reads id path max_bytes) w = (read_file env m id path max_bytes w).1
  step (destroys id) w = (destroy env m id w).1
  step (refills image workspace count) w = refill_pool m.pool image workspace count w
  step reaps w = (reap_expired env true w).1
  step reconciles w = (reconcile env true w).1

  pub run : List Call → World → World
  run [] w = w
  run (c ∷ cs) w = run cs (step c w)
