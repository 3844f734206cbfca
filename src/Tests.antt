-- ===== src/Tests.antt =====
-- Runs of the model on concrete inputs.
mod Runtime
mod Api
mod Upload
mod Settings
mod Runner
mod Workspace
mod Image
mod Volume
mod Nsinit
use sandkasten.Base.{
  ◌≡◌, refl, ◌*◌, arith, Bool, true, false, none, some, List, [], ◌∷◌, ◌++◌, ◌≤◌, ◌≢◌, ◌⊎◌, length,
  if◌then◌else◌, All,
}
use sandkasten.Base.Int.{ℤ, pos, millisecond}
use sandkasten.Base.Text.{Bytes, codes, str_eq, has_prefix, contains, has_byte, trim_prefix}
use sandkasten.Base.Path.{
  is_abs, clean, join, split, slashed, step_back, keep_element, keep_elements,
}
use sandkasten.Base.Path.Rooted.{IsPlain}
use sandkasten.Config.{Config, default_config}
use sandkasten.World.{Session, running, pool_idle, Env, World, invalid_image, err, ok}
use sandkasten.World.Action.{Action}
use sandkasten.Store.{
  find_row, insert_row, retry_on_busy, update_session_status, update_session_activity,
  create_session, set_activity,
}
use sandkasten.Store.Keys.{find_row-insert_row}
use sandkasten.Store.Outcomes.{
  Updated, Inserted, update_session_status-Updated, update_session_activity-Updated,
  create_session-Inserted,
}
use sandkasten.Store.Retry.{Retried, retry_on_busy_attempts}
use sandkasten.Pool.Take.{Taken, get-Taken}
use sandkasten.Pool.{get, Pool, is_listed}
use sandkasten.Session.{
  Manager, CreateRequest, is_image_name_safe, is_image_allowed, resolve_image, is_name_byte,
  matches_name, all_bytes, is_alnum, unset,
}
use sandkasten.Session.Refusals.{access-Gate}
use sandkasten.Session.Validate.Gate.{Gate}
use sandkasten.Session.Exec.{exec_command, exec_stream}
use sandkasten.Session.Exec.{prepare_exec_request}
use sandkasten.Session.Exec.Size.{Prepared, prepare_exec_request-Prepared}
use sandkasten.Session.Files.{write_file, read_file}
use sandkasten.Session.Images.{is_image_name_safe_bytes, pool_key_safe}
use sandkasten.Session.Acquire.Ends.{FinishEnds, finish_pool_acquire_ends}
use sandkasten.Session.Acquire.{finish_pool_acquire}
use sandkasten.Session.Create.{create, create_cold}
use sandkasten.Session.Create.Cold.{ColdEnds, create_cold_ends}
use sandkasten.Session.Shell.{shell_single_quote}
use sandkasten.Session.ShellWord.{word, plain, ends_word, is_end, word-shell_single_quote}
use sandkasten.Daemon.{Call, execs, reaps, destroys, creates, run}
use sandkasten.Daemon.Rows.{SameSandbox, run-SameSandbox, run-no_waking}
use sandkasten.Runner.{RingBuffer, new_ring_buffer, last_bytes, sanitize_path}
use sandkasten.Runner.Paths.{workspace, sanitize_path_inside}
use sandkasten.Runner.Buffer.{write_all, join_all, content-write_all}
use sandkasten.Api.Validation.{
  CreateSessionRequest, validate_create_session_request, validate_workspace_file_path,
  validate_given_workspace, workspace_id_pattern, matches_tail, ◌then_check◌,
}
use sandkasten.Api.Ids.{IsName, validate_create_session_request-IsName}
use sandkasten.Api.Validation.{WriteRequest, validate_write_request}
use sandkasten.Runner.Files.{file_target}
use sandkasten.Api.Paths.{target, validate_write_request-file_target}
use sandkasten.Api.Auth.{
  HttpRequest, post, serve, auth_middleware, has_token, is_public_path, has_suffix, is_asset,
}
use sandkasten.Api.Access.{Shows, auth_middleware-serve}

-- A driver, a runtime and a clock that always answer.
abbrev pub env : Env
env = record {
  db_error = λ h. none;
  rows_error = λ h. none;
  duplicate_error = codes "UNIQUE constraint failed: sessions.id";
  now = λ h. pos 1000;
  uuid = λ h. codes "0123abcd-4567-89ab-cdef-0123456789ab";
  create = λ h. some (record { init_pid = pos 42; cgroup_path = codes "/cg" });
  exec = λ h. none;
  destroy_fails = λ h. false;
  mount_fails = λ h. false;
  stats = λ h. none;
  is_running = λ h. some true;
  session_dirs = λ h. some [];
  workspace_exists = λ h. some true;
  workspace_create_fails = λ h. false;
  cancelled = λ h. false;
}

abbrev pub cfg : Config
cfg = record default_config {
  api_key = codes "key";
  allowed_images = codes "base" ∷ codes "python" ∷ [];
  shell_prefer = codes "bash";
  workspace_enabled = true;
}

abbrev pub manager : Manager
manager = record { cfg = cfg; pool = none; workspaces = true }

abbrev pub idle_row : Session
idle_row = record {
  id = codes "0123abcd-456";
  image = codes "base";
  init_pid = pos 7;
  cgroup_path = codes "/cg/a";
  status = pool_idle;
  cwd = codes "/workspace";
  workspace_id = [];
  created_at = pos 1;
  expires_at = pos 3600;
  last_activity = pos 1;
}

abbrev pub world : World
world = record { table = idle_row ∷ []; idle = λ k. []; locks = λ k. false; history = [] }

abbrev request : CreateRequest
request = record { image = codes "ubuntu"; ttl_seconds = pos 60; workspace_id = [] }

abbrev uses : List Call
uses =
    execs (codes "0123abcd-456") (codes "ls") (pos 1000) false
    ∷ reaps
    ∷ destroys (codes "0123abcd-456")
    ∷ []

run-no_waking_example :
    (t : Session) × (find_row (codes "0123abcd-456") (run env manager uses world).table ≡ some t)
    × (t.status ≢ running)
unfolding find_row str_eq
run-no_waking_example =
    run-no_waking env manager uses world (codes "0123abcd-456") idle_row (tt, (tt, (tt, tt))) refl
      (λ e. cc e)

run-SameSandbox_example :
    (t : Session) × (find_row
        (codes "0123abcd-456")
        (run env manager (creates request ∷ uses) world).table
      ≡ some t)
    × SameSandbox idle_row t
unfolding find_row str_eq
run-SameSandbox_example =
    run-SameSandbox env manager (creates request ∷ uses) world (codes "0123abcd-456") idle_row refl

create_cold_ends_example :
    ColdEnds env world (create_cold env manager (codes "python") request (pos 60) unset world)
create_cold_ends_example =
    create_cold_ends env manager (codes "python") request (pos 60) unset world

finish_pool_acquire_ends_example :
    FinishEnds env
      (codes "0123abcd-456")
      (finish_pool_acquire env manager (codes "0123abcd-456") idle_row [] (pos 60) world)
finish_pool_acquire_ends_example =
    finish_pool_acquire_ends env manager (codes "0123abcd-456") idle_row [] (pos 60) world

word-shell_single_quote_example :
    word plain [] (shell_single_quote (codes "it's; rm -rf /") ++ codes "; ls")
    ≡ some (codes "it's; rm -rf /", codes "; ls")
word-shell_single_quote_example =
    word-shell_single_quote (codes "it's; rm -rf /") (codes "; ls")
      (unfold ends_word is_end in refl)

accepted : sanitize_path (codes "a/.././b") ≡ some (codes "/workspace/b")
unfolding sanitize_path clean join is_abs split slashed step_back keep_element keep_elements
    has_prefix str_eq
accepted = refl

sanitize_path_inside_example :
    (rest : List Bytes) × All IsPlain rest × (codes "/workspace/b" ≡ slashed (workspace ∷ rest))
sanitize_path_inside_example =
    sanitize_path_inside (codes "a/.././b") (codes "/workspace/b") accepted

abbrev auth_request : HttpRequest
auth_request = record {
  method = post;
  path = codes "/v1/sessions";
  authorization = codes "Bearer key";
  cookie = none;
  api_key = [];
  query = [];
}

auth_served : auth_middleware (codes "key") auth_request ≡ serve
unfolding auth_middleware is_public_path is_asset has_suffix has_token has_prefix trim_prefix str_eq
auth_served = refl

abbrev checked_request : CreateSessionRequest
checked_request = record { ttl_seconds = pos 60; workspace_id = codes "my-ws" }

request_accepted : validate_create_session_request checked_request ≡ none
unfolding validate_create_session_request validate_given_workspace workspace_id_pattern matches_tail
    ◌then_check◌ str_eq
request_accepted = refl

validate_create_session_request-IsName_example :
    IsName (codes "my-ws") × length (codes "my-ws") ≤ 64
validate_create_session_request-IsName_example =
    validate_create_session_request-IsName checked_request request_accepted

abbrev written_file : WriteRequest
written_file = record { path = codes "a/.././b"; text = codes "x"; content_base64 = [] }

file_accepted : validate_write_request written_file ≡ none
unfolding validate_write_request validate_workspace_file_path ◌then_check◌ clean join is_abs split
    slashed step_back keep_element keep_elements has_prefix str_eq
file_accepted = refl

validate_write_request-file_target_example :
    (file_target (codes "a/.././b") ≡ some (target (codes "a/.././b")))
    ⊎ ((is_abs (codes "a/.././b") ≡ false)
        × (target (codes "a/.././b") ≡ codes "/workspace")
        × (file_target (codes "a/.././b") ≡ none))
validate_write_request-file_target_example =
    validate_write_request-file_target written_file file_accepted

-- A statement that succeeds at once.
abbrev quick : Action Bool
quick w = (ok true, w)

retry_on_busy_attempts_example :
    Retried 3 (25 * millisecond) quick world (retry_on_busy quick world)
retry_on_busy_attempts_example = retry_on_busy_attempts quick world

update_session_status-Updated_example :
    Updated
      (codes "0123abcd-456")
      (λ f. f ≡ (λ s. record s { status = running }))
      world
      (update_session_status env (codes "0123abcd-456") running world)
update_session_status-Updated_example =
    update_session_status-Updated env (codes "0123abcd-456") running world

create_session-Inserted_example : Inserted idle_row world (create_session env idle_row world)
create_session-Inserted_example = create_session-Inserted env idle_row world

abbrev buffer : RingBuffer
buffer = new_ring_buffer 4

content-write_all_example :
    ((write_all buffer (codes "ab" ∷ codes "cdef" ∷ [])).content
      ≡ last_bytes 4 (join_all (codes "ab" ∷ codes "cdef" ∷ [])))
    × (length (write_all buffer (codes "ab" ∷ codes "cdef" ∷ [])).content ≤ 4)
unfolding new_ring_buffer last_bytes
content-write_all_example = content-write_all buffer [] (codes "ab" ∷ codes "cdef" ∷ []) refl

base_safe : is_image_name_safe (codes "base") ≡ true
unfolding is_image_name_safe str_eq contains has_prefix has_byte matches_name all_bytes is_name_byte
    is_alnum
base_safe = refl

pool_key_safe_example : (codes "base" ≡ codes "base") × (codes "my|ws" ≡ codes "my|ws")
pool_key_safe_example =
    pool_key_safe (codes "base") (codes "base") (codes "my|ws") (codes "my|ws") base_safe base_safe
      refl

access-Gate_example :
    Gate env
      (codes "0123abcd-456")
      world
      (exec_command env manager (codes "0123abcd-456") (codes "ls") (pos 1000) false world)
    × Gate env
        (codes "0123abcd-456")
        world
        (exec_stream env manager (codes "0123abcd-456") (codes "ls") (pos 1000) false world)
    × Gate env
        (codes "0123abcd-456")
        world
        (write_file env manager (codes "0123abcd-456") (codes "ls") (codes "x") false world)
    × Gate env
        (codes "0123abcd-456")
        world
        (read_file env manager (codes "0123abcd-456") (codes "ls") (pos 1000) world)
access-Gate_example =
    access-Gate env manager (codes "0123abcd-456") (codes "ls") (pos 1000) false (codes "x") world

prepare_exec_request-Prepared_example : Prepared (pos 1000) (
    prepare_exec_request env manager
      (codes "0123abcd-456")
      (codes "abc")
      (codes "ls")
      (pos 1000)
      false
      world)
prepare_exec_request-Prepared_example =
    prepare_exec_request-Prepared env manager (codes "abc") (pos 1000) false (codes "0123abcd-456")
      (codes "ls") world (omega arith)

abbrev pool : Pool
pool = record { target = (codes "base|", pos 2) ∷ []; expiry = pos 3600 }

abbrev stocked : World
stocked = record world { idle = λ k. codes "a" ∷ codes "b" ∷ [] }

get-Taken_example : Taken pool (codes "base") [] stocked (get pool (codes "base") [] stocked)
get-Taken_example = get-Taken pool (codes "base") [] stocked
