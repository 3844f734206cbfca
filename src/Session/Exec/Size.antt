-- ===== src/Session/Exec/Size.antt =====
-- What prepareExecRequest sends to the runner fits its terminal.
use sandkasten.Base.{
  ◌≤◌, ◌≡◌, refl, Option, none, some, Bool, Bool-cases, inl, inr, length, leb, leb→le, arith,
}
use sandkasten.Base.Int.{ℤ}
use sandkasten.Base.Text.{Bytes}
use sandkasten.World.{Request, Response, stage_failed, World, Env, Error, Result, ok, err}
use sandkasten.World.Action.{pure, fail, call, ◌>>=◌}
use sandkasten.Runner.Limits.{max_exec_inline_cmd_bytes}
use sandkasten.Session.{Manager}
use sandkasten.Session.Shell.Size.{length-staged_cmd}
use sandkasten.Session.Files.{accept, is_error}
use sandkasten.Session.Exec.{prepare_exec_request, staged_request, exec_request}

-- A request with a command that is short enough and with the time that was asked for, or an error.
pub data Prepared (timeout_ms : ℤ) (r : Result Request × World) : Type 0 where
  fits :
      (req : Request)
      → r.0 ≡ ok req
      → length req.cmd ≤ max_exec_inline_cmd_bytes
      → req.timeout_ms ≡ timeout_ms
      → Prepared timeout_ms r
  unstaged : (e : Error) → r.0 ≡ err e → Prepared timeout_ms r

module _ (env : Env) (m : Manager) (exec_id : Bytes) (timeout_ms : ℤ) (raw : Bool) where
  staged-Prepared :
      (o : Option Response) (w : World)
      → length exec_id ≤ 8
      → Prepared timeout_ms (
          (accept stage_failed o >>= λ resp.
          pure (staged_request env m exec_id timeout_ms raw resp))
            w)
  unfolding accept ◌>>=◌ pure fail staged_request exec_request
  staged-Prepared none w h = unstaged stage_failed refl
  staged-Prepared (some resp) w h = elim (Bool-cases (is_error resp.kind)) [
    | inl e ↦ rw e (unstaged _ refl)
    | inr e ↦ rw e (let l = length-staged_cmd m.cfg exec_id in fits _ refl (omega arith) refl)
  ]

  -- prepareExecRequest, for an id of at most eight bytes as Exec makes it, gives a request whose command
  -- is within the limit of the runner's terminal, however long the caller's command is, and whose
  -- time is the given one; or staging the script failed and there is an error.
  pub prepare_exec_request-Prepared :
      (id cmd : Bytes) (w : World)
      → length exec_id ≤ 8
      → Prepared timeout_ms (prepare_exec_request env m id exec_id cmd timeout_ms raw w)
  unfolding prepare_exec_request exec_request ◌>>=◌ call pure
  prepare_exec_request-Prepared id cmd w h =
      elim (Bool-cases (leb (length cmd) max_exec_inline_cmd_bytes)) [
        | inl e ↦ rw e (fits _ refl (leb→le (length cmd) max_exec_inline_cmd_bytes e) refl)
        | inr e ↦ rw e (staged-Prepared _ _ h)
      ]
