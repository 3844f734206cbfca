-- ===== src/Api/Handlers/Refusals.antt =====
-- internal/api/session_handlers.go: how an id that is not stored is answered.
use sandkasten.Base.{◌≡◌, refl, none, ◌∷◌}
use sandkasten.Base.Text.{Bytes}
use sandkasten.World.{statement, World, Env}
use sandkasten.World.Action.{◌>>=◌, fail}
use sandkasten.Store.{find_row}
use sandkasten.Store.Reads.{found, get_session-found}
use sandkasten.Session.{Manager}
use sandkasten.Session.Query.{or_error, get, destroy}
use sandkasten.Api.Errors.{write_api_error}
use sandkasten.Api.Validation.{validate_session_id}
use sandkasten.Api.Handlers.{
  status_of, checked_by, reply_to, call_manager, handle_get_session, handle_destroy,
}

module _ (env : Env) (m : Manager) (id : Bytes) (w : World) where
  unknown_get :
      env.db_error (statement ∷ w.history) ≡ none
      → find_row id w.table ≡ none
      → status_of (call_manager 200 (get env m id) w).0 ≡ 404
  unfolding call_manager reply_to get ◌>>=◌ or_error found fail write_api_error
  unknown_get d h = rw (get_session-found env id w, d, h) refl

  unknown_destroy :
      env.db_error (statement ∷ w.history) ≡ none
      → find_row id w.table ≡ none
      → status_of (call_manager 200 (destroy env m id) w).0 ≡ 500
  unfolding call_manager reply_to destroy ◌>>=◌ or_error found fail write_api_error
  unknown_destroy d h = rw (get_session-found env id w, d, h) refl

  -- For an id that is well formed and not stored, when the query succeeds, handleGetSession answers
  -- 404 and handleDestroy answers 500.
  pub unknown_id-statuses :
      validate_session_id id ≡ none
      → env.db_error (statement ∷ w.history) ≡ none
      → find_row id w.table ≡ none
      → (status_of (handle_get_session env m id w).0 ≡ 404)
        × (status_of (handle_destroy env m id w).0 ≡ 500)
  unfolding handle_get_session handle_destroy checked_by
  unknown_id-statuses v d h = rw v (unknown_get d h, unknown_destroy d h)
