-- ===== src/Runner/Files.antt =====
-- cmd/runner/fs.go: the handlers for files, over a file system that is a parameter, and the dispatch of
-- requests in server.go.
pub mod RoundTrip
pub mod Size
use sandkasten.Base.{
  ℕ, suc, Bool, true, false, ◌||◌, Option, none, some, [], ◌++◌, length, take, ltb, if◌then◌else◌,
}
use sandkasten.Base.Int.{ℤ, pos, ltb_ℤ, pos_part, wrap64, ◌+ℤ◌}
use sandkasten.Base.Text.{Bytes, codes, str_eq}
use sandkasten.Base.Base64.{encode, decode}
use sandkasten.World.{
  Request, RequestType, exec, exec_stream, write, read, other_type, Response, ResponseType,
  exec_reply, write_reply, read_reply, error_reply,
}
use sandkasten.Runner.{sanitize_path}
use sandkasten.Runner.Limits.{default_max_read_bytes}

-- What opening a file and reading it to some length gives.
pub data Reading : Type 0 where
  open_failed : Bytes → Reading
  read_failed : Bytes → Reading
  contents : Bytes → Reading

-- The file system in the state `D`: os.MkdirAll of a file's directory and os.WriteFile, which return the
-- text of an error or none; os.Open with a read of the whole file; and whether make gives a buffer of a
-- length, where it panics if not.
pub record FileSystem (D : Type 0) : Type 0 where
  pub ensure_parent_dir : Bytes → D → Option Bytes × D
  pub write_path : Bytes → Bytes → D → Option Bytes × D
  pub read_path : Bytes → D → Reading
  pub has_buffer : ℤ → Bool

-- The fields that a reply leaves out. The text of a base64 error is left out too.
abbrev pub blank_response : Response
blank_response = record {
  id = [];
  kind = exec_reply;
  exit_code = pos 0;
  cwd = [];
  output = [];
  truncated = false;
  duration_ms = pos 0;
  ok = false;
  content_base64 = [];
  error = [];
}

unfoldable pub error_response : Bytes → Bytes → Response
error_response id text = record blank_response { id = id; kind = error_reply; error = text }

abbrev pub written : Bytes → Response
written id = record blank_response { id = id; kind = write_reply; ok = true }

abbrev pub invalid_path : Bytes → Response
invalid_path id = error_response id (codes "invalid path: must be a file under /workspace")

-- decodeContent
unfoldable pub decode_content : Request → Option Bytes
decode_content req =
    if str_eq req.content_base64 [] then some req.text else decode req.content_base64

-- The limit of handleRead.
unfoldable pub read_limit : ℤ → ℕ
read_limit max_bytes =
    if ltb_ℤ (pos 0) max_bytes then pos_part max_bytes else default_max_read_bytes

-- The file that a path names, if it may be read and written.
unfoldable pub file_target : Bytes → Option Bytes
file_target path = not_workspace (sanitize_path path)
  where
    not_workspace : Option Bytes → Option Bytes
    not_workspace none = none
    not_workspace (some target) = if str_eq target (codes "/workspace") then none else some target

-- The text of a request's type.
unfoldable pub type_text : RequestType → Bytes
type_text exec = codes "exec"
type_text exec_stream = codes "exec_stream"
type_text write = codes "write"
type_text read = codes "read"
type_text (other_type text) = text

module _ {D : Type 0} (fs : FileSystem D) (id : Bytes) where
  replied : Bytes → Option Bytes × D → Response × D
  replied stage (none, d) = (written id, d)
  replied stage (some e, d) = (error_response id (stage ++ e), d)

  write_in_dir : Bytes → Bytes → Option Bytes × D → Response × D
  unfolding replied
  write_in_dir target content (some e, d) = (error_response id (codes "mkdir: " ++ e), d)
  write_in_dir target content (none, d) = replied (codes "write: ") (fs.write_path target content d)

  write_content : Bytes → Option Bytes → D → Response × D
  unfolding write_in_dir
  write_content target none d = (error_response id (codes "invalid base64: "), d)
  write_content target (some content) d =
      write_in_dir target content (fs.ensure_parent_dir target d)

  write_target : Option Bytes → Option Bytes → D → Response × D
  unfolding write_content
  write_target none content d = (invalid_path id, d)
  write_target (some target) content d = write_content target content d

  -- The buffer has room for one byte more than the limit, if the length has not wrapped.
  read_reply_of : ℕ → Reading → Option Response
  read_reply_of limit (open_failed e) = some (error_response id (codes "open: " ++ e))
  read_reply_of limit (read_failed e) =
      if fs.has_buffer (wrap64 (pos limit +ℤ pos 1))
      then some (error_response id (codes "read: " ++ e))
      else none
  read_reply_of limit (contents text) =
      let got = take (pos_part (wrap64 (pos limit +ℤ pos 1))) text in
      if fs.has_buffer (wrap64 (pos limit +ℤ pos 1))
      then some (record blank_response {
        id = id;
        kind = read_reply;
        content_base64 = encode (take limit got);
        truncated = ltb limit (length got);
      })
      else none

  pub read_target : ℤ → Option Bytes → D → Option Response
  unfolding read_reply_of
  read_target max_bytes none d = some (invalid_path id)
  read_target max_bytes (some target) d =
      read_reply_of (read_limit max_bytes) (fs.read_path target d)

module _ {D : Type 0} (fs : FileSystem D) where
  -- handleWrite
  unfoldable pub handle_write : Request → D → Response × D
  unfolding write_target
  handle_write req d = write_target fs req.id (file_target req.path) (decode_content req) d

  -- handleRead; none is the panic of make.
  pub handle_read : Request → D → Option Response
  unfolding read_target
  handle_read req d = read_target fs req.id req.max_bytes (file_target req.path) d

  unknown_type : Request → Response
  unknown_type req = error_response req.id (codes "unknown request type: " ++ type_text req.kind)

  -- routeRequest, for the handler of commands.
  pub route_request : (Request → D → Response × D) → Request → D → Option Response × D
  unfolding unknown_type
  route_request handle_exec req d = elim req.kind [
    | exec ↦ let (r, d') = handle_exec req d in (some r, d')
    | write ↦ let (r, d') = handle_write req d in (some r, d')
    | read ↦ (handle_read req d, d)
    | exec_stream ↦ (some (unknown_type req), d)
    | other_type text ↦ (some (unknown_type req), d)
  ]
