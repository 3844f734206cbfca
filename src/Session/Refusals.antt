-- ===== src/Session/Refusals.antt =====
-- The refusals that Exec, ExecStream, Write and Read share.
use sandkasten.Base.{Bool}
use sandkasten.Base.Int.{ℤ}
use sandkasten.Base.Text.{Bytes}
use sandkasten.World.{World, Env}
use sandkasten.Session.{Manager}
use sandkasten.Session.Validate.Gate.{Gate}
use sandkasten.Session.Exec.{exec_command, exec_stream}
use sandkasten.Session.Exec.Gate.{exec_command-Gate, exec_stream-Gate}
use sandkasten.Session.Files.{write_file, read_file}
use sandkasten.Session.Files.Gate.{write_file-Gate, read_file-Gate}

-- Exec, ExecStream, Write and Read reach the runtime only for a session that is stored, running and
-- not past its expiry at the time that the clock shows. In every other case they return an error,
-- after a query and perhaps a look at the clock, and nothing else is changed or called.
pub access-Gate :
    (env : Env) (m : Manager) (id text : Bytes) (n : ℤ) (flag : Bool) (content : Bytes) (w : World)
    → Gate env id w (exec_command env m id text n flag w)
      × Gate env id w (exec_stream env m id text n flag w)
      × Gate env id w (write_file env m id text content flag w)
      × Gate env id w (read_file env m id text n w)
access-Gate env m id text n flag content w = (
  exec_command-Gate env m id text n flag w,
  exec_stream-Gate env m id text n flag w,
  write_file-Gate env m id text w content flag,
  read_file-Gate env m id text w n,
)
