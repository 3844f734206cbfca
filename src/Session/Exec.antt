-- ===== src/Session/Exec.antt =====
-- internal/session/exec.go: `Exec` and `ExecStream`. The mutex of a session is entered in the map; its
-- waiting is not modelled, since one action runs at a time.
pub mod Rows
pub mod Gate
pub mod Size
use sandkasten.Base.{
  ℕ, ◌*◌, ◌/◌, Bool, true, false, ◌&&◌, Option, none, some, [], ◌∷◌, ◌++◌, length, take, leb,
  if◌then◌else◌,
}
use sandkasten.Base.Int.{ℤ, pos, negsuc, pos_part, millisecond}
use sandkasten.Base.Text.{Bytes, codes, str_eq, has_prefix}
use sandkasten.Base.Base64.{encode}
use sandkasten.World.{
  Session, Request, exec, Response, sandbox_exec, clock_read, id_made, Env, World, Error,
  command_timeout, exec_failed, stage_failed, runner_error,
}
use sandkasten.World.Action.{Action, pure, fail, call, modify, ◌>>=◌, ◌>>◌}
use sandkasten.Runner.Limits.{max_exec_inline_cmd_bytes}
use sandkasten.Session.{Manager}
use sandkasten.Session.Shell.{shell_single_quote, staged_exec_shell, script_path, staged_cmd}
use sandkasten.Session.Validate.{
  validate_session, extend_session_lease, enforce_max_timeout, resolve_cwd,
}
use sandkasten.Session.Files.{build_write_request, accept}

-- session.ExecResult
pub record ExecResult : Type 0 where
  pub exit_code : ℤ
  pub cwd : Bytes
  pub output : Bytes
  pub truncated : Bool
  pub duration_ms : ℤ

-- session.ExecChunk
pub record ExecChunk : Type 0 where
  pub output : Bytes
  pub timestamp : ℤ
  pub exit_code : ℤ
  pub cwd : Bytes
  pub duration_ms : ℤ
  pub is_done : Bool

-- The request for the runner's shell.
unfoldable pub exec_request : Bytes → Bytes → ℤ → Bool → Request
exec_request id cmd timeout_ms raw_output = record {
  id = id;
  kind = exec;
  cmd = cmd;
  timeout_ms = timeout_ms;
  raw_output = raw_output;
  path = [];
  content_base64 = [];
  text = [];
  max_bytes = pos 0;
}

-- sessionLock and removeSessionLock
unfoldable pub set_lock : Bytes → Bool → World → World
set_lock id present w = record w { locks = λ j. if str_eq id j then present else w.locks j }

-- The runner's way to report that it killed the command.
unfoldable pub is_timeout : Response → Bool
is_timeout resp = is_minus_one resp.exit_code && has_prefix (codes "timeout:") resp.output
  where
    is_minus_one : ℤ → Bool
    is_minus_one (pos n) = false
    is_minus_one (negsuc n) = leb n 0

module _ (env : Env) (m : Manager) where
  staged_request : Bytes → ℤ → Bool → Response → Request
  staged_request exec_id timeout_ms raw_output resp =
      let quoted = shell_single_quote (codes "/workspace/" ++ script_path exec_id) in
      exec_request exec_id (staged_cmd (staged_exec_shell m.cfg) quoted) timeout_ms raw_output

  -- prepareExecRequest: a command that is too long for the runner's terminal goes by a script.
  unfoldable pub prepare_exec_request : Bytes → Bytes → Bytes → ℤ → Bool → Action Request
  unfolding staged_request
  prepare_exec_request id exec_id cmd timeout_ms raw_output =
      if leb (length cmd) max_exec_inline_cmd_bytes
      then pure (exec_request exec_id cmd timeout_ms raw_output)
      else (do
        text ← call id_made env.uuid
        answer ←
            call
              (sandbox_exec id
                (build_write_request (take 8 text) (script_path exec_id) (encode cmd) true))
              env.exec
        resp ← accept stage_failed answer
        pure (staged_request exec_id timeout_ms raw_output resp))

  unfoldable pub in_time : Response → Action Response
  in_time resp = if is_timeout resp then fail (command_timeout resp.output) else pure resp

  exec_result : Bytes → Response → ExecResult
  exec_result cwd resp = record {
    exit_code = resp.exit_code;
    cwd = cwd;
    output = resp.output;
    truncated = resp.truncated;
    duration_ms = resp.duration_ms;
  }

  -- What both kinds of exec do with a session that was found usable, up to the new lease.
  unfoldable pub run_request :
      Bytes → Session → Bytes → Bytes → ℤ → Bool → Action (Bytes × Response)
  unfolding in_time
  run_request id sess exec_id cmd timeout_ms raw_output = do
    req ← prepare_exec_request sess.id exec_id cmd timeout_ms raw_output
    answer ← call (sandbox_exec sess.id req) env.exec
    accepted ← accept exec_failed answer
    resp ← in_time accepted
    let cwd = resolve_cwd resp.cwd sess.cwd
    extend_session_lease env m id cwd
    pure (cwd, resp)

  -- Exec
  unfoldable pub exec_command : Bytes → Bytes → ℤ → Bool → Action ExecResult
  unfolding exec_result
  exec_command id cmd timeout_ms raw_output = do
    sess ← validate_session env m id
    modify (set_lock id true)
    text ← call id_made env.uuid
    (cwd, resp) ←
        run_request id sess (take 8 text) cmd (enforce_max_timeout m.cfg timeout_ms) raw_output
    pure (exec_result cwd resp)

  -- ExecStream: the one chunk that it sends.
  pub exec_stream : Bytes → Bytes → ℤ → Bool → Action ExecChunk
  exec_stream id cmd timeout_ms raw_output = do
    sess ← validate_session env m id
    modify (set_lock id true)
    text ← call id_made env.uuid
    start ← call clock_read env.now
    (cwd, resp) ←
        run_request id sess (take 8 text) cmd (enforce_max_timeout m.cfg timeout_ms) raw_output
    pure (record {
      output = resp.output;
      timestamp = pos (pos_part start / millisecond);
      exit_code = resp.exit_code;
      cwd = cwd;
      duration_ms = resp.duration_ms;
      is_done = true;
    })
