-- ===== src/Api/Handlers/Served.antt =====
-- internal/api/exec_handlers.go: what stands behind an answer of POST /v1/sessions/{id}/exec.
use sandkasten.Base.{◌≡◌, subst, ◌≢◌, ◌≤◌, refl, false, Option, none, some, [], length, arith}
use sandkasten.Base.Int.{pos, ltb_ℤ, ◌≤ℤ◌}
use sandkasten.Base.Text.{Bytes, str_eq}
use sandkasten.World.{Session, running, World, Env, Error, Result}
use sandkasten.Store.{find_row}
use sandkasten.Session.{Manager}
use sandkasten.Session.Validate.Gate.{Gate, open_for, shut, late, timed}
use sandkasten.Session.Exec.Gate.{exec_command-Gate}
use sandkasten.Api.Errors.{write_api_error}
use sandkasten.Api.Validation.{Refusal, ◌then_check◌, validate_session_id, validate_exec_request}
use sandkasten.Api.Handlers.{
  status_of, Handler, checked_by, reply_to, call_manager, decoded, ExecBody, handle_exec,
}

-- A command that was run: the body's limits, and the session that it was run in.
pub record ServedExec (env : Env) (id : Bytes) (w : World) (req : ExecBody) : Type 0 where
  pub well_formed_id : validate_session_id id ≡ none
  pub cmd_given : req.cmd ≢ []
  pub cmd_short : length req.cmd ≤ 1048576
  pub timeout_least : pos 0 ≤ℤ req.timeout_ms
  pub timeout_most : req.timeout_ms ≤ℤ pos 600000
  pub session : Session
  pub stored : find_row id w.table ≡ some session
  pub runs : session.status ≡ running
  pub fresh : ltb_ℤ session.expires_at (env.now (timed w).history) ≡ false

validate_exec_request-bounds :
    (req : ExecBody)
    → validate_exec_request (record { cmd = req.cmd; timeout_ms = req.timeout_ms }) ≡ none
    → (req.cmd ≢ [])
      × (length req.cmd ≤ 1048576)
      × (pos 0 ≤ℤ req.timeout_ms)
      × (req.timeout_ms ≤ℤ pos 600000)
unfolding validate_exec_request ◌then_check◌ str_eq
validate_exec_request-bounds req h = (ground arith, ground arith, ground arith, ground arith)

module _ {A : Type 0} (w : World) where
  checked_by-200 :
      (o : Option Refusal) (next : Handler A)
      → status_of (checked_by o next w).0 ≡ 200
      → (o ≡ none) × (status_of (next w).0 ≡ 200)
  unfolding checked_by
  checked_by-200 none next h = (refl, h)
  checked_by-200 (some e) next h = absurd (omega arith)

  decoded-200 :
      {B : Type 0} (o : Option B) (next : B → Handler A)
      → status_of (decoded o next w).0 ≡ 200
      → (b : B) × (o ≡ some b) × (status_of (next b w).0 ≡ 200)
  unfolding decoded
  decoded-200 none next h = absurd (omega arith)
  decoded-200 (some b) next h = (b, refl, h)

-- No error is answered with 200.
write_api_error-200 : (e : Error) → (write_api_error e).status_code ≢ 200
unfolding write_api_error
write_api_error-200 e = elim e as (λ k. (write_api_error k).status_code ≢ 200) [
  | Error.not_found _ ↦ λ h. omega arith
  | Error.session_expired _ ↦ λ h. omega arith
  | Error.invalid_image _ ↦ λ h. omega arith
  | Error.command_timeout _ ↦ λ h. omega arith
  | _ ↦ λ h. omega arith
]

Gate-200 :
    {A : Type 0} (env : Env) (id : Bytes) (w : World) (r : Result A × World)
    → Gate env id w r
    → status_of (reply_to 200 r).0 ≡ 200
    → (s : Session) × (find_row id w.table ≡ some s)
      × (s.status ≡ running)
      × (ltb_ℤ s.expires_at (env.now (timed w).history) ≡ false)
unfolding reply_to
Gate-200 env id w r (open_for s e run fresh) h = (s, e, run, fresh)
Gate-200 env id w r (shut e q) h =
    absurd (write_api_error-200 e (subst (λ x. status_of (reply_to 200 x).0 ≡ 200) q h))
Gate-200 env id w r (late e q) h =
    absurd (write_api_error-200 e (subst (λ x. status_of (reply_to 200 x).0 ≡ 200) q h))

-- When handleExec answers 200, the body was decoded, its command holds at least one byte and at most
-- 1 MiB, its timeout is between 0 and 600000 ms, and the id is well formed and that of a session that
-- was stored, running and not past its expiry at the time that the clock showed.
pub handle_exec-ServedExec :
    (env : Env) (m : Manager) (id : Bytes) (body : Option ExecBody) (w : World)
    → status_of (handle_exec env m id body w).0 ≡ 200
    → (req : ExecBody) × (body ≡ some req) × ServedExec env id w req
unfolding handle_exec call_manager
handle_exec-ServedExec env m id body w h =
    let (valid, h) = checked_by-200 w (validate_session_id id) _ h in
    let (req, given, h) = decoded-200 w body _ h in
    let (checked, h) =
      checked_by-200 w
        (validate_exec_request (record { cmd = req.cmd; timeout_ms = req.timeout_ms })) _ h in
    let (s, stored, runs, fresh) =
      Gate-200 env id w _ (exec_command-Gate env m id req.cmd req.timeout_ms req.raw_output w) h in
    let (given_cmd, short, least, most) = validate_exec_request-bounds req checked in
    (
      req,
      given,
      record {
        well_formed_id = valid;
        cmd_given = given_cmd;
        cmd_short = short;
        timeout_least = least;
        timeout_most = most;
        session = s;
        stored = stored;
        runs = runs;
        fresh = fresh;
      },
    )
