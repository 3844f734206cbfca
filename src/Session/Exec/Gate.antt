-- ===== src/Session/Exec/Gate.antt =====
-- Exec and ExecStream stand behind the check of the session.
use sandkasten.Base.{Bool}
use sandkasten.Base.Int.{ℤ}
use sandkasten.Base.Text.{Bytes}
use sandkasten.World.{World, Env}
use sandkasten.Session.{Manager}
use sandkasten.Session.Validate.{validate_session}
use sandkasten.Session.Validate.Gate.{Gate, Gate-bind, validate_session-Gate}
use sandkasten.Session.Exec.{exec_command, exec_stream}

module _ (env : Env) (m : Manager) (id cmd : Bytes) (timeout_ms : ℤ) (raw : Bool) (w : World) where
  pub exec_command-Gate : Gate env id w (exec_command env m id cmd timeout_ms raw w)
  unfolding exec_command
  exec_command-Gate =
      Gate-bind env id w (validate_session env m id) _ (validate_session-Gate env m id w)

  pub exec_stream-Gate : Gate env id w (exec_stream env m id cmd timeout_ms raw w)
  unfolding exec_stream
  exec_stream-Gate =
      Gate-bind env id w (validate_session env m id) _ (validate_session-Gate env m id w)
