-- ===== src/Session/Files/Gate.antt =====
-- Write and Read stand behind the check of the session.
use sandkasten.Base.{Bool}
use sandkasten.Base.Int.{ℤ}
use sandkasten.Base.Text.{Bytes}
use sandkasten.World.{World, Env}
use sandkasten.Session.{Manager}
use sandkasten.Session.Validate.{validate_session}
use sandkasten.Session.Validate.Gate.{Gate, Gate-bind, validate_session-Gate}
use sandkasten.Session.Files.{write_file, read_file}

module _ (env : Env) (m : Manager) (id path : Bytes) (w : World) where
  pub write_file-Gate :
      (content : Bytes) (is_base64 : Bool)
      → Gate env id w (write_file env m id path content is_base64 w)
  unfolding write_file
  write_file-Gate content is_base64 =
      Gate-bind env id w (validate_session env m id) _ (validate_session-Gate env m id w)

  pub read_file-Gate : (max_bytes : ℤ) → Gate env id w (read_file env m id path max_bytes w)
  unfolding read_file
  read_file-Gate max_bytes =
      Gate-bind env id w (validate_session env m id) _ (validate_session-Gate env m id w)
