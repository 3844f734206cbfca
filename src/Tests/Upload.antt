-- ===== src/Tests/Upload.antt =====
-- A run of the upload on a concrete form.
use sandkasten.Base.{◌≡◌, ◌≤◌, refl, some, [], ◌∷◌, length, All}
use sandkasten.Base.Text.{codes, str_eq, has_prefix, contains, trim_right}
use sandkasten.Base.Path.{
  base, last_element, split, clean, join, is_abs, slashed, step_back, keep_element, keep_elements,
}
use sandkasten.World.Action.{◌>>=◌, ignore, pure, fail, gets, attempt, call, modify}
use sandkasten.Store.{find_row}
use sandkasten.Store.Reads.{found, get_session-found}
use sandkasten.Session.Files.{accept, write_file}
use sandkasten.Session.Validate.{validate_session, usable, unexpired, extend_session_lease}
use sandkasten.Api.Validation.{◌then_check◌, validate_workspace_file_path}
use sandkasten.Api.Handlers.{answer, checked_by, decoded, call_manager, reply_to}
use sandkasten.Api.Upload.{
  UploadForm, max_upload_files, chosen_files, handle_upload, upload_files, upload_each, upload_file,
  store_file, upload_dest,
}
use sandkasten.Api.Upload.Stored.{IsTaken, handle_upload-Stored}
use sandkasten.Tests.{manager}
use sandkasten.Tests.Api.{answering, running_world, id_accepted}

abbrev form : UploadForm
form = record {
  path = [];
  file = [];
  files = record { filename = codes "a.txt"; content = some (codes "x") } ∷ [];
}

uploaded :
    (handle_upload answering manager (codes "0123abcd-456") (some form) running_world).0
    ≡ answer 200 (codes "/workspace/a.txt" ∷ [])
unfolding handle_upload upload_files upload_each upload_file store_file upload_dest checked_by
    decoded call_manager reply_to write_file validate_session usable unexpired found
    extend_session_lease ◌>>=◌ ignore pure fail gets attempt call modify accept
    validate_workspace_file_path ◌then_check◌ base last_element split clean join is_abs slashed
    step_back keep_element keep_elements has_prefix contains trim_right str_eq find_row
uploaded = rw (id_accepted, get_session-found) refl

handle_upload-Stored_example :
    All IsTaken (codes "/workspace/a.txt" ∷ [])
    × (length (codes "/workspace/a.txt" ∷ []) ≡ length (chosen_files form))
    × (length (codes "/workspace/a.txt" ∷ []) ≤ max_upload_files)
handle_upload-Stored_example =
    handle_upload-Stored answering manager (codes "0123abcd-456") form running_world 200
      (codes "/workspace/a.txt" ∷ []) uploaded
