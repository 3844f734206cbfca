-- ===== src/Session/Exec/Rows.antt =====
-- Commands, as changes of rows.
use sandkasten.Base.{Bool}
use sandkasten.Base.Int.{ℤ}
use sandkasten.Base.Text.{Bytes}
use sandkasten.World.{Session, Response, Env}
use sandkasten.World.Action.{modify}
use sandkasten.World.Action.Follows.{Follows, Preorder, Follows-modify, follows_rules}
use sandkasten.Store.RowHistory.{RowRelation, row_history, KeepsRows-refl}
use sandkasten.Store.RowRules.{AllowsUse}
use sandkasten.Session.{Manager}
use sandkasten.Session.Validate.Rows.{Follows-validate_session, Follows-lease}
use sandkasten.Session.Files.Rows.{Follows-accept}
use sandkasten.Session.Exec.{
  set_lock, prepare_exec_request, in_time, run_request, exec_command, exec_stream,
}

pub Follows-set_lock :
    (r : RowRelation) (id : Bytes) (present : Bool)
    → Follows (row_history r) (modify (set_lock id present))
unfolding set_lock
Follows-set_lock r id present = Follows-modify _ (λ w. KeepsRows-refl r w)

module _ (env : Env) (m : Manager) {p : Preorder} where
  in_time-Follows : (resp : Response) → Follows p (in_time env m resp)
  unfolding in_time
  in_time-Follows resp = search follows_rules

  pub Follows-prepare :
      (id exec_id cmd : Bytes) (timeout_ms : ℤ) (raw_output : Bool)
      → Follows p (prepare_exec_request env m id exec_id cmd timeout_ms raw_output)
  unfolding prepare_exec_request
  Follows-prepare id exec_id cmd timeout_ms raw_output =
      search (follows_rules, Follows-accept) depth 8

module _ (r : RowRelation) (a : AllowsUse r) (env : Env) (m : Manager) where
  run_request-Follows :
      (id : Bytes) (sess : Session) (exec_id cmd : Bytes) (timeout_ms : ℤ) (raw_output : Bool)
      → Follows (row_history r) (run_request env m id sess exec_id cmd timeout_ms raw_output)
  unfolding run_request
  run_request-Follows id sess exec_id cmd timeout_ms raw_output =
      search
        (
          follows_rules,
          Follows-prepare env m,
          in_time-Follows env m,
          Follows-accept,
          Follows-lease r env m a,
        )
        depth 9

  pub Follows-exec_command :
      (id cmd : Bytes) (timeout_ms : ℤ) (raw_output : Bool)
      → Follows (row_history r) (exec_command env m id cmd timeout_ms raw_output)
  unfolding exec_command
  Follows-exec_command id cmd timeout_ms raw_output =
      search
        (follows_rules, Follows-validate_session r env m, Follows-set_lock r, run_request-Follows)
        depth 8

  pub Follows-exec_stream :
      (id cmd : Bytes) (timeout_ms : ℤ) (raw_output : Bool)
      → Follows (row_history r) (exec_stream env m id cmd timeout_ms raw_output)
  unfolding exec_stream
  Follows-exec_stream id cmd timeout_ms raw_output =
      search
        (follows_rules, Follows-validate_session r env m, Follows-set_lock r, run_request-Follows)
        depth 9
