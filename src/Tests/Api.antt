-- ===== src/Tests/Api.antt =====
-- Runs of the model of the HTTP handlers on concrete inputs.
use sandkasten.Base.{◌≡◌, refl, false, none, some, [], ◌∷◌}
use sandkasten.Base.Int.{pos}
use sandkasten.Base.Text.{codes, str_eq, has_byte, contains, has_prefix}
use sandkasten.World.{running, Env, World, exec_reply, Response}
use sandkasten.World.Action.{◌>>=◌, ignore, pure, fail, gets, attempt, call, modify}
use sandkasten.Store.{find_row}
use sandkasten.Store.Reads.{found, get_session-found}
use sandkasten.Session.Exec.{exec_command, run_request, in_time, prepare_exec_request, is_timeout}
use sandkasten.Session.Files.{accept}
use sandkasten.Session.Validate.{validate_session, usable, unexpired, extend_session_lease}
use sandkasten.Api.Validation.{
  id_bad_format, validate_session_id, session_id_pattern, matches_groups, ◌then_check◌,
  validate_exec_request,
}
use sandkasten.Api.Handlers.{
  status_of, ExecBody, handle_exec, checked_by, decoded, call_manager, reply_to,
}
use sandkasten.Api.Handlers.Served.{ServedExec, handle_exec-ServedExec}
use sandkasten.Tests.{env, manager, world, idle_row}

id_refused : validate_session_id (codes "abc") ≡ some id_bad_format
unfolding validate_session_id session_id_pattern matches_groups ◌then_check◌ str_eq has_byte
    contains has_prefix
id_refused = refl

pub id_accepted : validate_session_id (codes "0123abcd-456") ≡ none
unfolding validate_session_id session_id_pattern matches_groups ◌then_check◌ str_eq has_byte
    contains has_prefix
id_accepted = refl

-- A session that runs, and a runner that answers.
abbrev pub running_world : World
running_world = record world { table = record idle_row { status = running } ∷ [] }

abbrev answer : Response
answer = record {
  id = [];
  kind = exec_reply;
  exit_code = pos 0;
  cwd = codes "/workspace";
  output = codes "a b";
  truncated = false;
  duration_ms = pos 3;
  ok = false;
  content_base64 = [];
  error = [];
}

abbrev pub answering : Env
answering = record env { exec = λ h. some answer }

abbrev command : ExecBody
command = record { cmd = codes "ls"; timeout_ms = pos 1000; raw_output = false }

command_served :
    status_of (handle_exec answering manager (codes "0123abcd-456") (some command) running_world).0
    ≡ 200
unfolding handle_exec checked_by decoded call_manager reply_to exec_command run_request in_time
    prepare_exec_request validate_session usable unexpired found extend_session_lease
    validate_exec_request ◌then_check◌ ◌>>=◌ ignore pure fail gets attempt call modify accept
    is_timeout has_prefix str_eq find_row
command_served = rw (id_accepted, get_session-found) refl

handle_exec-ServedExec_example :
    (req : ExecBody) × (some command ≡ some req)
    × ServedExec answering (codes "0123abcd-456") running_world req
handle_exec-ServedExec_example =
    handle_exec-ServedExec answering manager (codes "0123abcd-456") (some command) running_world
      command_served
