-- ===== src/Api/Validation.antt =====
-- internal/api/validation.go: the checks of a request's fields, and the paths of a workspace
-- (internal/session/workspace_fs.go).

use sandkasten.Base.{
  ℕ, zero, suc, ◌*◌, Bool, true, false, ◌&&◌, ◌||◌, not, Option, none, some, List, [], ◌∷◌, length,
  ltb, leb, ◌==◌, if◌then◌else◌,
}
use sandkasten.Base.Int.{ℤ, pos, ltb_ℤ}
use sandkasten.Base.Text.{Bytes, codes, str_eq, has_prefix, trim_prefix, contains, has_byte}
use sandkasten.Base.Path.{is_abs, clean, join, dot, slash, dot_dot}
use sandkasten.Runner.Limits.{max_exec_cmd_bytes}

-- The messages of the package's errors, those of the upload handlers last.
pub data Refusal : Type 0 where
  id_required id_too_short id_too_long id_invalid id_bad_format : Refusal
  ttl_negative ttl_too_long : Refusal
  cmd_required cmd_too_large timeout_negative timeout_too_long : Refusal
  path_required path_outside path_is_workspace : Refusal
  both_contents no_content : Refusal
  max_bytes_negative max_bytes_too_large : Refusal
  path_has_dots no_file too_many_files invalid_filename invalid_destination file_too_large : Refusal

-- The fields of createSessionRequest, execRequest and writeRequest that are checked.
pub record CreateSessionRequest : Type 0 where
  pub ttl_seconds : ℤ
  pub workspace_id : Bytes

pub record ExecRequest : Type 0 where
  pub cmd : Bytes
  pub timeout_ms : ℤ

pub record WriteRequest : Type 0 where
  pub path : Bytes
  pub text : Bytes
  pub content_base64 : Bytes

-- The first refusal of two checks.
infixr 30 ◌then_check◌
unfoldable pub ◌then_check◌ : Option Refusal → Option Refusal → Option Refusal
none then_check next = next
some e then_check next = some e

abbrev pub refuse_if : Bool → Refusal → Option Refusal
refuse_if b e = if b then some e else none

abbrev pub is_empty : Bytes → Bool
is_empty s = str_eq s []

-- strings.Contains(id, "..") || strings.ContainsAny(id, "/\\")
abbrev pub escapes : Bytes → Bool
escapes id = contains dot_dot id || has_byte slash id || has_byte b'\\' id

-- sessionIDPattern, its alternatives as the lengths of the groups that hyphens part.
abbrev is_hex : ℕ → Bool
is_hex c = leb b'0' c && leb c b'9' || leb b'a' c && leb c b'f' || leb b'A' c && leb c b'F'

unfoldable pub matches_groups : List ℕ → Bytes → Bool
matches_groups [] s = false
matches_groups (zero ∷ []) [] = true
matches_groups (zero ∷ []) (c ∷ s) = false
matches_groups (zero ∷ n ∷ ns) [] = false
matches_groups (zero ∷ n ∷ ns) (c ∷ s) = c == b'-' && matches_groups (n ∷ ns) s
matches_groups (suc n ∷ ns) [] = false
matches_groups (suc n ∷ ns) (c ∷ s) = is_hex c && matches_groups (n ∷ ns) s

unfoldable pub session_id_pattern : Bytes → Bool
session_id_pattern id =
    matches_groups (8 ∷ 3 ∷ []) id
    || matches_groups (8 ∷ 4 ∷ []) id
    || matches_groups (8 ∷ 4 ∷ 4 ∷ 4 ∷ 12 ∷ []) id

-- ValidateSessionID
unfoldable pub validate_session_id : Bytes → Option Refusal
validate_session_id id =
    refuse_if (is_empty id) id_required
    then_check refuse_if (ltb 64 (length id)) id_too_long
    then_check refuse_if (escapes id) id_invalid
    then_check refuse_if (not (session_id_pattern id)) id_bad_format

-- workspaceIDPattern: the first and the last byte are letters or digits, hyphens may stand between.
abbrev pub is_lower_alnum : ℕ → Bool
is_lower_alnum c = leb b'0' c && leb c b'9' || leb b'a' c && leb c b'z'

unfoldable pub matches_tail : Bytes → Bool
matches_tail [] = false
matches_tail (c ∷ []) = is_lower_alnum c
matches_tail (c ∷ d ∷ s) = (is_lower_alnum c || c == b'-') && matches_tail (d ∷ s)

unfoldable pub workspace_id_pattern : Bytes → Bool
workspace_id_pattern [] = false
workspace_id_pattern (c ∷ s) = is_lower_alnum c && matches_tail s

-- protocol.WorkspaceVolumePrefix
abbrev pub workspace_volume_prefix : Bytes
workspace_volume_prefix = codes "sandkasten-ws-"

-- (*Manager).normalizeWorkspaceID, which ValidateWorkspaceID repeats.
unfoldable pub normalize_workspace_id : Bytes → Bytes
normalize_workspace_id id =
    let short = trim_prefix workspace_volume_prefix id in if is_empty short then id else short

unfoldable pub validate_short_id : Bytes → Option Refusal
validate_short_id id =
    refuse_if (ltb (length id) 2) id_too_short
    then_check refuse_if (ltb 64 (length id)) id_too_long
    then_check refuse_if (escapes id) id_invalid
    then_check refuse_if (not (workspace_id_pattern id)) id_bad_format

-- ValidateWorkspaceID
unfoldable pub validate_workspace_id : Bytes → Option Refusal
validate_workspace_id id =
    refuse_if (is_empty id) id_required then_check validate_short_id (normalize_workspace_id id)

-- The check of workspace_id inside validateCreateSessionRequest.
unfoldable pub validate_given_workspace : Bytes → Option Refusal
validate_given_workspace id =
    if is_empty id
    then none
    else (refuse_if (ltb (length id) 2) id_too_short
        then_check refuse_if (ltb 64 (length id)) id_too_long
        then_check refuse_if (not (workspace_id_pattern id)) id_bad_format)

-- validateCreateSessionRequest
unfoldable pub validate_create_session_request : CreateSessionRequest → Option Refusal
validate_create_session_request req =
    refuse_if (ltb_ℤ req.ttl_seconds (pos 0)) ttl_negative
    then_check refuse_if (ltb_ℤ (pos 86400) req.ttl_seconds) ttl_too_long
    then_check validate_given_workspace req.workspace_id

-- validateExecRequest
unfoldable pub validate_exec_request : ExecRequest → Option Refusal
validate_exec_request req =
    refuse_if (is_empty req.cmd) cmd_required
    then_check refuse_if (ltb max_exec_cmd_bytes (length req.cmd)) cmd_too_large
    then_check refuse_if (ltb_ℤ req.timeout_ms (pos 0)) timeout_negative
    then_check refuse_if (ltb_ℤ (pos 600000) req.timeout_ms) timeout_too_long

-- ValidateWorkspaceFilePath
unfoldable pub validate_workspace_file_path : Bytes → Option Refusal
validate_workspace_file_path path =
    let cleaned = clean (if is_abs path then path else join (codes "/workspace") path) in
    refuse_if (is_empty path) path_required
    then_check refuse_if
        (not (has_prefix (codes "/workspace/") cleaned)
          && not (str_eq cleaned (codes "/workspace")))
        path_outside

abbrev pub file_path : Bytes → Option Refusal
file_path path =
    refuse_if (is_empty path) path_required
    then_check validate_workspace_file_path path
    then_check refuse_if (str_eq (clean path) (codes "/workspace")) path_is_workspace

abbrev pub contents : Bytes → Bytes → Option Refusal
contents text content_base64 =
    refuse_if (not (is_empty text) && not (is_empty content_base64)) both_contents
    then_check refuse_if (is_empty text && is_empty content_base64) no_content

-- validateWriteRequest
unfoldable pub validate_write_request : WriteRequest → Option Refusal
validate_write_request req = file_path req.path then_check contents req.text req.content_base64

-- validateWriteWorkspaceRequest
unfoldable pub validate_write_workspace_request : WriteRequest → Option Refusal
validate_write_workspace_request req =
    refuse_if (is_empty req.path) path_required then_check contents req.text req.content_base64

-- validateReadRequest
unfoldable pub validate_read_request : Bytes → ℤ → Option Refusal
validate_read_request path max_bytes =
    file_path path
    then_check refuse_if (ltb_ℤ max_bytes (pos 0)) max_bytes_negative
    then_check refuse_if (ltb_ℤ (pos (100 * 1024 * 1024)) max_bytes) max_bytes_too_large

-- (*Manager).safeWorkspacePath
unfoldable pub safe_workspace_path : Bytes → Bytes
safe_workspace_path raw =
    let cleaned = clean raw in
    let relative = trim_prefix (slash ∷ []) cleaned in
    if str_eq cleaned dot || str_eq cleaned (slash ∷ [])
    then []
    else (if contains dot_dot relative then [] else relative)
