-- ===== src/Api/Workspaces.antt =====
-- internal/api: workspace_handlers.go and workspace_fs_handlers.go without the upload. What net/http and
-- encoding/json make of a request is an argument, as in Api/Handlers; an error of the manager is a 500,
-- as writeAPIError knows none of them.
pub mod Removed
use sandkasten.Base.{Bool, true, false, not, Option, none, some, List, [], ◌∷◌, if◌then◌else◌}
use sandkasten.Base.Int.{ℤ, pos}
use sandkasten.Base.Text.{Bytes, str_eq}
use sandkasten.Base.Path.{dot}
use sandkasten.Base.Decimal.{atoi}
use sandkasten.Session.WorkspaceFiles.{FileCall, FileKernel}
use sandkasten.Session.Workspaces.{
  Volume, WorkspaceError, Result, done, refused, list_workspaces, delete_workspace,
  list_workspace_files, read_workspace_file, write_workspace_file,
}
use sandkasten.Api.Validation.{
  Refusal, WriteRequest, validate_workspace_id, validate_write_workspace_request,
}

pub data Reply (A : Type 0) : Type 0 where
  malformed path_required : Reply A
  bad_request : Refusal → Reply A
  internal_error : WorkspaceError → Reply A
  answer : A → Reply A

abbrev pub reply_to : {A : Type 0} → Result A → Reply A
reply_to (done a) = answer a
reply_to (refused e) = internal_error e

-- The body of a request that did not decode is `none`.
abbrev pub content_of : WriteRequest → Bytes × Bool
content_of req =
    if str_eq req.content_base64 [] then (req.text, false) else (req.content_base64, true)

module _ (v : Volume) where
  -- handleListWorkspaces
  unfoldable pub handle_list_workspaces : Reply (List Bytes)
  handle_list_workspaces = reply_to (list_workspaces v)

  abbrev pub delete_checked : Option Refusal → Bytes → Reply (Unit {0}) × Option Bytes
  delete_checked (some e) id = (bad_request e, none)
  delete_checked none id = let (r, removed) = delete_workspace v id in (reply_to r, removed)

  -- handleDeleteWorkspace, with the path that is removed.
  unfoldable pub handle_delete_workspace : Bytes → Reply (Unit {0}) × Option Bytes
  handle_delete_workspace id = delete_checked (validate_workspace_id id) id

  abbrev pub list_checked : Option Refusal → Bytes → Bytes → Reply (List (Bytes × Bool))
  list_checked (some e) id path = bad_request e
  list_checked none id path =
      reply_to (list_workspace_files v id (if str_eq path [] then dot else path))

  -- handleListWorkspaceFiles, for the parameter `path` of the query.
  unfoldable pub handle_list_workspace_files : Bytes → Bytes → Reply (List (Bytes × Bool))
  handle_list_workspace_files id path = list_checked (validate_workspace_id id) id path

  abbrev pub read_limited : Bytes → Bytes → Option ℤ → Reply (Bytes × Bool)
  read_limited id path none = malformed
  read_limited id path (some n) = reply_to (read_workspace_file v id path n)

  abbrev pub read_checked : Option Refusal → Bytes → Bytes → Bytes → Reply (Bytes × Bool)
  read_checked (some e) id path max_bytes = bad_request e
  read_checked none id path max_bytes =
      if str_eq path []
      then path_required
      else read_limited id path (if str_eq max_bytes [] then some (pos 0) else atoi max_bytes)

  -- handleReadWorkspaceFile, for the parameters `path` and `max_bytes` of the query.
  unfoldable pub handle_read_workspace_file : Bytes → Bytes → Bytes → Reply (Bytes × Bool)
  handle_read_workspace_file id path max_bytes =
      read_checked (validate_workspace_id id) id path max_bytes

  module _ (k : FileKernel) where
    abbrev pub write_accepted :
        Bytes → WriteRequest → Option Refusal → List FileCall → Reply (Unit {0}) × List FileCall
    write_accepted id req (some e) h = (bad_request e, h)
    write_accepted id req none h =
        let (content, is_base64) = content_of req in
        let (r, h') = write_workspace_file v k id req.path content is_base64 h in (reply_to r, h')

    abbrev pub write_decoded :
        Bytes → Option WriteRequest → List FileCall → Reply (Unit {0}) × List FileCall
    write_decoded id none h = (malformed, h)
    write_decoded id (some req) h = write_accepted id req (validate_write_workspace_request req) h

    abbrev pub write_checked :
        Option Refusal
        → Bytes
        → Option WriteRequest
        → List FileCall
        → Reply (Unit {0}) × List FileCall
    write_checked (some e) id body h = (bad_request e, h)
    write_checked none id body h = write_decoded id body h

    -- handleWriteWorkspaceFile
    unfoldable pub handle_write_workspace_file :
        Bytes → Option WriteRequest → List FileCall → Reply (Unit {0}) × List FileCall
    handle_write_workspace_file id body h = write_checked (validate_workspace_id id) id body h
