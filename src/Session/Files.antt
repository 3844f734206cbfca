-- ===== src/Session/Files.antt =====
-- internal/session/fs.go
pub mod Rows
pub mod Gate
use sandkasten.Base.{Bool, true, false, Option, none, some, [], take, if◌then◌else◌}
use sandkasten.Base.Int.{ℤ, pos}
use sandkasten.Base.Text.{Bytes}
use sandkasten.World.{
  Session, Request, exec, write, read, Response, ResponseType, error_reply, sandbox_exec, id_made,
  Env, Error, runner_error, write_failed, read_failed,
}
use sandkasten.World.Action.{Action, pure, fail, call, ◌>>=◌, ◌>>◌}
use sandkasten.Session.{Manager}
use sandkasten.Session.Validate.{validate_session, extend_session_lease}

abbrev pub is_error : ResponseType → Bool
is_error error_reply = true
is_error _ = false

-- buildWriteRequest, with the request's id.
unfoldable pub build_write_request : Bytes → Bytes → Bytes → Bool → Request
build_write_request id path content is_base64 = record {
  id = id;
  kind = write;
  cmd = [];
  timeout_ms = pos 0;
  raw_output = false;
  path = path;
  content_base64 = if is_base64 then content else [];
  text = if is_base64 then [] else content;
  max_bytes = pos 0;
}

-- buildReadRequest
unfoldable pub build_read_request : Bytes → Bytes → ℤ → Request
build_read_request id path max_bytes = record {
  id = id;
  kind = read;
  cmd = [];
  timeout_ms = pos 0;
  raw_output = false;
  path = path;
  content_base64 = [];
  text = [];
  max_bytes = max_bytes;
}

-- The runner's answer, if there is one and it is no error.
unfoldable pub accept : Error → Option Response → Action Response
accept e none = fail e
accept e (some resp) = if is_error resp.kind then fail (runner_error resp.error) else pure resp

module _ (env : Env) (m : Manager) where
  -- Write
  unfoldable pub write_file : Bytes → Bytes → Bytes → Bool → Action (Unit {0})
  write_file id path content is_base64 = do
    sess ← validate_session env m id
    text ← call id_made env.uuid
    answer ←
        call (sandbox_exec sess.id (build_write_request (take 8 text) path content is_base64))
          env.exec
    resp ← accept write_failed answer
    extend_session_lease env m id sess.cwd

  -- Read: the content, and whether it was cut off.
  pub read_file : Bytes → Bytes → ℤ → Action (Bytes × Bool)
  read_file id path max_bytes = do
    sess ← validate_session env m id
    text ← call id_made env.uuid
    answer ← call (sandbox_exec sess.id (build_read_request (take 8 text) path max_bytes)) env.exec
    resp ← accept read_failed answer
    extend_session_lease env m id sess.cwd
    pure (resp.content_base64, resp.truncated)
