-- ===== src/Api/Upload.antt =====
-- internal/api/fs_handlers.go and workspace_fs_handlers.go: the uploads. The parsed multipart form is
-- an argument, `none` if it is malformed or too large.
pub mod Stored
use sandkasten.Base.{
  ℕ, ◌+◌, ◌*◌, Bool, true, false, ◌||◌, not, Option, none, some, List, [], ◌∷◌, ◌++◌, length, take,
  ltb, if◌then◌else◌,
}
use sandkasten.Base.Text.{Bytes, codes, str_eq, has_prefix, contains, trim_right}
use sandkasten.Base.Path.{clean, join, base, slash, dot, dot_dot}
use sandkasten.World.{Env, World}
use sandkasten.World.Action.{Action, pure, ◌>>=◌, ◌>>◌}
use sandkasten.Session.{Manager}
use sandkasten.Session.Files.{write_file}
use sandkasten.Api.Errors.{ApiError, internal_error}
use sandkasten.Api.Validation.{
  Refusal, no_file, too_many_files, invalid_filename, file_too_large, refuse_if, is_empty,
  validate_session_id, validate_workspace_file_path,
}
use sandkasten.Api.Handlers.{
  Reply, malformed, bad_request, failed, answer, Handler, checked_by, call_manager, decoded,
}

-- One part of the form: its content is `none` if it cannot be opened or read.
pub record UploadFile : Type 0 where
  pub filename : Bytes
  pub content : Option Bytes

-- The values of `path`, and the parts of the fields `file` and `files`.
pub record UploadForm : Type 0 where
  pub path : Bytes
  pub file : List UploadFile
  pub files : List UploadFile

abbrev pub max_upload_bytes : ℕ
max_upload_bytes = 10 * 1024 * 1024

abbrev pub max_upload_files : ℕ
max_upload_files = 100

abbrev pub is_none : List UploadFile → Bool
is_none [] = true
is_none (f ∷ fs) = false

abbrev pub chosen_files : UploadForm → List UploadFile
chosen_files form = if is_none form.file then form.files else form.file

-- The loop over the files, for the place that a name goes to, its check, and how a file is written.
module _ (dest : Bytes → Bytes) (check : Bytes → Option Refusal)
    (write : Bytes → Bytes → Action (Unit {0})) where
  unfoldable pub store_file : Bytes → Option Bytes → Handler Bytes
  store_file path none w = (failed (record { code = internal_error; status_code = 500 }), w)
  store_file path (some content) w =
      let read = take (max_upload_bytes + 1) content in
      checked_by (refuse_if (ltb max_upload_bytes (length read)) file_too_large)
        (call_manager 200 (do write path read; pure path)) w

  unfoldable pub upload_file : UploadFile → Handler Bytes
  upload_file f =
      let name = base f.filename in
      checked_by
        (refuse_if (is_empty name || str_eq name dot || contains dot_dot name) invalid_filename)
        (checked_by (check (dest name)) (store_file (dest name) f.content))

  -- The rest of the loop, behind the reply for one file.
  abbrev pub and_then :
      List Bytes
      → (List Bytes → Handler (List Bytes))
      → Reply Bytes × World
      → Reply (List Bytes) × World
  and_then done next (answer status path, w) = next (done ++ path ∷ []) w
  and_then done next (malformed, w) = (malformed, w)
  and_then done next (bad_request e, w) = (bad_request e, w)
  and_then done next (failed e, w) = (failed e, w)

  unfoldable pub upload_each : List Bytes → List UploadFile → Handler (List Bytes)
  upload_each done [] w = (answer 200 done, w)
  upload_each done (f ∷ fs) w = and_then done (λ paths. upload_each paths fs) (upload_file f w)

  -- The choice of the files, and their number.
  unfoldable pub upload_files : UploadForm → Handler (List Bytes)
  upload_files form =
      let files = chosen_files form in
      checked_by (refuse_if (is_none files) no_file) (
        checked_by (refuse_if (ltb max_upload_files (length files)) too_many_files)
          (upload_each [] files))

-- Where handleUpload puts a file.
abbrev pub upload_base : Bytes → Bytes
upload_base path =
    let trimmed = trim_right slash path in if is_empty trimmed then codes "/workspace" else trimmed

unfoldable pub upload_dest : Bytes → Bytes → Bytes
upload_dest base_path name =
    let joined = clean (join base_path name) in
    if has_prefix (codes "/workspace") joined then joined else join (codes "/workspace") name

-- handleUpload
unfoldable pub handle_upload : Env → Manager → Bytes → Option UploadForm → Handler (List Bytes)
handle_upload env m id form = checked_by (validate_session_id id) (
    decoded form λ form.
      let base_path = upload_base form.path in
      checked_by (validate_workspace_file_path base_path) (
        upload_files (upload_dest base_path) validate_workspace_file_path
          (λ path content. write_file env m id path content false) form))
