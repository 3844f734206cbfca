-- ===== src/Api/Handlers.antt =====
-- internal/api: session_handlers.go, exec_handlers.go and fs_handlers.go. What net/http and
-- encoding/json make of a request (the path's id, the decoded body, the query) is an argument, a body
-- that does not decode being `none`; a reply is its status and what is encoded into it.
pub mod Refusals
pub mod Served
use sandkasten.Base.{ℕ, Bool, true, false, not, Option, none, some, List, [], ◌∷◌, if◌then◌else◌}
use sandkasten.Base.Int.{ℤ, pos}
use sandkasten.Base.Text.{Bytes, str_eq}
use sandkasten.Base.Decimal.{atoi}
use sandkasten.World.{Stats, Env, World, Error, Result, ok, err}
use sandkasten.World.Action.{Action}
use sandkasten.Session.{Manager, CreateRequest, Info}
use sandkasten.Session.Create.{create}
use sandkasten.Session.Exec.{ExecResult, ExecChunk, exec_command, exec_stream}
use sandkasten.Session.Files.{write_file, read_file}
use sandkasten.Session.Query
use sandkasten.Api.Errors.{ApiError, write_api_error}
use sandkasten.Api.Validation.{
  Refusal, CreateSessionRequest, ExecRequest, WriteRequest, is_empty, validate_session_id,
  validate_create_session_request, validate_exec_request, validate_write_request,
  validate_read_request,
}

-- A 400 for a body or a number that cannot be read, or for a refusal; an error of the manager, mapped;
-- or a status and a value.
pub data Reply (A : Type 0) : Type 0 where
  malformed : Reply A
  bad_request : Refusal → Reply A
  failed : ApiError → Reply A
  answer : ℕ → A → Reply A

-- The status that the client sees.
abbrev pub status_of : {A : Type 0} → Reply A → ℕ
status_of malformed = 400
status_of (bad_request e) = 400
status_of (failed e) = e.status_code
status_of (answer status a) = status

abbrev pub Handler : Type 0 → Type 0
Handler A = World → Reply A × World

module _ {A : Type 0} where
  unfoldable pub checked_by : Option Refusal → Handler A → Handler A
  checked_by none next w = next w
  checked_by (some e) next w = (bad_request e, w)

  unfoldable pub reply_to : ℕ → Result A × World → Reply A × World
  reply_to status (ok a, w) = (answer status a, w)
  reply_to status (err e, w) = (failed (write_api_error e), w)

  unfoldable pub call_manager : ℕ → Action A → Handler A
  unfolding reply_to
  call_manager status m w = reply_to status (m w)

  unfoldable pub decoded : {B : Type 0} → Option B → (B → Handler A) → Handler A
  decoded none next w = (malformed, w)
  decoded (some b) next w = next b w

-- The body of POST /v1/sessions.
pub record CreateBody : Type 0 where
  pub image : Bytes
  pub ttl_seconds : ℤ
  pub workspace_id : Bytes

pub record ExecBody : Type 0 where
  pub cmd : Bytes
  pub timeout_ms : ℤ
  pub raw_output : Bool

-- extractContent: what is written, and whether it is base64.
unfoldable pub extract_content : WriteRequest → Bytes × Bool
extract_content req =
    if not (is_empty req.content_base64) then (req.content_base64, true) else (req.text, false)

-- parseMaxBytes
unfoldable pub parse_max_bytes : Bytes → Option ℤ
parse_max_bytes v = if is_empty v then some (pos 0) else atoi v

module _ (env : Env) (m : Manager) where
  -- handleCreateSession
  pub handle_create_session : Option CreateBody → Handler Info
  handle_create_session body = decoded body λ req.
      checked_by
        (validate_create_session_request
          (record { ttl_seconds = req.ttl_seconds; workspace_id = req.workspace_id }))
        (call_manager 201 (
          create env m (record {
            image = req.image;
            ttl_seconds = req.ttl_seconds;
            workspace_id = req.workspace_id;
          })))

  -- handleGetSession
  pub handle_get_session : Bytes → Handler Info
  handle_get_session id =
      checked_by (validate_session_id id) (call_manager 200 (Query.get env m id))

  -- handleListSessions
  pub handle_list_sessions : Handler (List Info)
  handle_list_sessions = call_manager 200 (Query.list env m)

  -- handleDestroy
  pub handle_destroy : Bytes → Handler (Unit {0})
  handle_destroy id =
      checked_by (validate_session_id id) (call_manager 200 (Query.destroy env m id))

  -- handleGetSessionStats
  pub handle_get_session_stats : Bytes → Handler Stats
  handle_get_session_stats id =
      checked_by (validate_session_id id) (call_manager 200 (Query.get_stats env m id))

  -- handleExec
  unfoldable pub handle_exec : Bytes → Option ExecBody → Handler ExecResult
  handle_exec id body = checked_by (validate_session_id id) (
      decoded body λ req.
        checked_by (validate_exec_request (record { cmd = req.cmd; timeout_ms = req.timeout_ms }))
          (call_manager 200 (exec_command env m id req.cmd req.timeout_ms req.raw_output)))

  -- handleWrite
  pub handle_write : Bytes → Option WriteRequest → Handler (Unit {0})
  handle_write id body = checked_by (validate_session_id id) (
      decoded body λ req. checked_by (validate_write_request req) (
        let (content, is_base64) = extract_content req in
        call_manager 200 (write_file env m id req.path content is_base64)))

  -- handleRead, for the parameters `path` and `max_bytes` of the query.
  pub handle_read : Bytes → Bytes → Bytes → Handler (Bytes × Bool)
  handle_read id path max_bytes = checked_by (validate_session_id id) (
      decoded (parse_max_bytes max_bytes) λ n.
        checked_by (validate_read_request path n) (call_manager 200 (read_file env m id path n)))

-- The events of the stream.
pub data StreamEvent : Type 0 where
  chunk_event : Bytes → ℤ → StreamEvent
  done_event : ℤ → Bytes → ℤ → StreamEvent
  error_event : Error → StreamEvent

-- sendDoneChunk
unfoldable pub send_done_chunk : ExecChunk → List StreamEvent
send_done_chunk chunk =
    let last = done_event chunk.exit_code chunk.cwd chunk.duration_ms ∷ [] in
    if is_empty chunk.output then last else chunk_event chunk.output chunk.timestamp ∷ last

-- streamSSEChunks, of the one chunk or the error that ExecStream gives. After an error its channel
-- holds it and the other channel is closed, and the `select` may take either: `sees_closed` is its
-- choice.
unfoldable pub stream_events : Bool → Result ExecChunk → List StreamEvent
stream_events sees_closed (ok chunk) = send_done_chunk chunk
stream_events sees_closed (err e) = if sees_closed then [] else error_event e ∷ []

module _ (env : Env) (m : Manager) where
  streamed : Bool → Result ExecChunk × World → Reply (List StreamEvent) × World
  streamed sees_closed (r, w) = (answer 200 (stream_events sees_closed r), w)

  -- handleExecStream
  pub handle_exec_stream : Bool → Bytes → Option ExecBody → Handler (List StreamEvent)
  unfolding streamed
  handle_exec_stream sees_closed id body = checked_by (validate_session_id id) (
      decoded body λ req.
        checked_by (validate_exec_request (record { cmd = req.cmd; timeout_ms = req.timeout_ms }))
          λ w. streamed sees_closed (exec_stream env m id req.cmd req.timeout_ms req.raw_output w))
