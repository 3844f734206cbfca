-- ===== src/Session/Workspaces.antt =====
-- internal/session/workspace.go and workspace_fs.go: the workspaces and their files. What the disk answers
-- is an argument: a `Volume` for the calls that follow links, a `FileKernel` for those of a write.
pub mod Inside
use sandkasten.Base.{
  ℕ, Bool, true, false, not, Option, none, some, List, [], ◌∷◌, length, take, if◌then◌else◌,
}
use sandkasten.Base.Int.{ℤ, pos, pos_part, ◌+ℤ◌, leb_ℤ, ltb_ℤ, wrap64}
use sandkasten.Base.Text.{Bytes, codes, str_eq, trim_prefix}
use sandkasten.Base.Path.{clean, join}
use sandkasten.Base.Path.Relative.{escapes}
use sandkasten.Base.Base64.{encode, decode}
use sandkasten.Runner.Limits.{default_max_read_bytes}
use sandkasten.Api.Validation.{normalize_workspace_id, safe_workspace_path, workspace_volume_prefix}
use sandkasten.Session.WorkspaceFiles.{FileCall, FileKernel, Walked, write_no_symlinks}

-- os.ReadDir of the directory of the workspaces; an entry is a name and whether it is a directory.
pub data Listing : Type 0 where
  no_directory unreadable : Listing
  entries : List (Bytes × Bool) → Listing

pub record Volume : Type 0 where
  pub enabled : Bool
  pub data_dir : Bytes
  pub is_missing : Bytes → Bool
  pub eval_symlinks : Bytes → Option Bytes
  pub read_dir : Bytes → Listing
  pub is_dir : Bytes → Option Bool
  pub contents : Bytes → Option Bytes
  pub makes_dir : Bytes → Bool
  pub removes : Bytes → Bool

pub data WorkspaceError : Type 0 where
  not_enabled invalid_id not_found resolve_failed resolve_workspace_failed path_escapes :
      WorkspaceError
  read_dir_failed invalid_path stat_failed is_a_directory read_failed : WorkspaceError
  create_failed invalid_base64 write_failed delete_failed : WorkspaceError

pub data Result (A : Type 0) : Type 0 where
  done : A → Result A
  refused : WorkspaceError → Result A

module _ {A B : Type 0} where
  infixl 5 ◌>>=◌ ◌>>◌
  unfoldable pub ◌>>=◌ : Result A → (A → Result B) → Result B
  done a >>= f = f a
  refused e >>= f = refused e

  abbrev pub ◌>>◌ : Result A → Result B → Result B
  m >> n = m >>= λ _. n

abbrev pub require : Bool → WorkspaceError → Result (Unit {0})
require true e = done tt
require false e = refused e

abbrev pub need : {A : Type 0} → WorkspaceError → Option A → Result A
need e none = refused e
need e (some a) = done a

-- The entries that are directories.
unfoldable pub directories : List (Bytes × Bool) → List Bytes
directories [] = []
directories ((name, is_dir) ∷ rest) =
    let names = directories rest in if is_dir then name ∷ names else names

module _ (v : Volume) where
  abbrev pub workspaces_dir : Bytes
  workspaces_dir = join v.data_dir (codes "workspaces")

  abbrev pub workspace_path : Bytes → Bytes
  workspace_path id = join workspaces_dir id

  abbrev named_in : Listing → Result (List Bytes)
  named_in no_directory = done []
  named_in unreadable = refused read_dir_failed
  named_in (entries es) = done (directories es)

  -- ListWorkspaces
  unfoldable pub list_workspaces : Result (List Bytes)
  unfolding directories ◌>>=◌
  list_workspaces = do require v.enabled not_enabled; named_in (v.read_dir workspaces_dir)

  -- DeleteWorkspace, with the path that it removes.
  unfoldable pub delete_workspace : Bytes → Result (Unit {0}) × Option Bytes
  delete_workspace id =
      let path = workspace_path (trim_prefix workspace_volume_prefix id) in
      if not v.enabled
      then (refused not_enabled, none)
      else if v.removes path
      then (done tt, some path)
      else (refused delete_failed, some path)

  -- The path that the links lead to, which has to be at or below where the workspace's own lead.
  unfoldable pub resolve : Bytes → Bytes → Result Bytes
  unfolding ◌>>=◌ escapes
  resolve workspace full = do
    real ← need resolve_failed (v.eval_symlinks full)
    root ← need resolve_workspace_failed (v.eval_symlinks workspace)
    require (not (escapes root real)) path_escapes
    done real

  abbrev pub shown_in : Listing → Result (List (Bytes × Bool))
  shown_in (entries es) = done es
  shown_in _ = refused read_dir_failed

  -- ListWorkspaceFiles
  unfoldable pub list_workspace_files : Bytes → Bytes → Result (List (Bytes × Bool))
  unfolding resolve
  list_workspace_files id dir_path = do
    let short = normalize_workspace_id id
    let workspace = workspace_path short
    require v.enabled not_enabled
    require (not (str_eq short [])) invalid_id
    require (not (v.is_missing workspace)) not_found
    real ← resolve workspace (join workspace (safe_workspace_path dir_path))
    shown_in (v.read_dir real)

  unfoldable pub read_size : ℤ → ℤ
  read_size max_bytes = if leb_ℤ max_bytes (pos 0) then pos default_max_read_bytes else max_bytes

  -- What is sent of the bytes that were read.
  abbrev pub sent : ℤ → Bytes → Bytes × Bool
  sent size content =
      let truncated = ltb_ℤ size (pos (length content)) in
      (encode (if truncated then take (pos_part size) content else content), truncated)

  -- io.LimitReader with the size and one byte more.
  unfoldable pub cut_off : ℤ → Bytes → Bytes × Bool
  unfolding wrap64 ◌+ℤ◌
  cut_off size bytes = sent size (take (pos_part (wrap64 (size +ℤ pos 1))) bytes)

  -- ReadWorkspaceFile
  unfoldable pub read_workspace_file : Bytes → Bytes → ℤ → Result (Bytes × Bool)
  unfolding resolve cut_off read_size
  read_workspace_file id file_path max_bytes = do
    let short = normalize_workspace_id id
    let safe = safe_workspace_path file_path
    let workspace = workspace_path short
    require v.enabled not_enabled
    require (not (str_eq short [])) invalid_id
    require (not (str_eq safe [])) invalid_path
    real ← resolve workspace (join workspace safe)
    is_dir ← need stat_failed (v.is_dir real)
    require (not is_dir) is_a_directory
    bytes ← need read_failed (v.contents real)
    done (cut_off (read_size max_bytes) bytes)

  unfoldable pub content_of : Bool → Bytes → Result Bytes
  content_of true content = need invalid_base64 (decode content)
  content_of false content = done content

  -- WriteWorkspaceFile up to the write: the root that is opened, the path below it and the bytes.
  unfoldable pub prepare_write : Bytes → Bytes → Bytes → Bool → Result (Bytes × (Bytes × Bytes))
  unfolding ◌>>=◌ escapes content_of
  prepare_write id file_path content is_base64 = do
    let short = normalize_workspace_id id
    let safe = safe_workspace_path file_path
    let workspace = workspace_path short
    require v.enabled not_enabled
    require (not (str_eq short [])) invalid_id
    require (not (str_eq safe [])) invalid_path
    require (v.makes_dir workspace) create_failed
    require (not (escapes workspace (clean (join workspace safe)))) path_escapes
    root ← need resolve_workspace_failed (v.eval_symlinks workspace)
    bytes ← content_of is_base64 content
    done (root, (safe, bytes))

  abbrev ended : Walked (Unit {0}) × List FileCall → Result (Unit {0}) × List FileCall
  ended (sandkasten.Session.WorkspaceFiles.done a, h) = (done tt, h)
  ended (sandkasten.Session.WorkspaceFiles.refused e, h) = (refused write_failed, h)

  abbrev pub write_prepared :
      FileKernel
      → Result (Bytes × (Bytes × Bytes))
      → List FileCall
      → Result (Unit {0}) × List FileCall
  write_prepared k (done (root, (safe, bytes))) h = ended (write_no_symlinks k root safe bytes h)
  write_prepared k (refused e) h = (refused e, h)

  -- WriteWorkspaceFile
  unfoldable pub write_workspace_file :
      FileKernel → Bytes → Bytes → Bytes → Bool → List FileCall → Result (Unit {0}) × List FileCall
  unfolding prepare_write
  write_workspace_file k id file_path content is_base64 h =
      write_prepared k (prepare_write id file_path content is_base64) h
