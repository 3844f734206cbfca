-- ===== src/Session.antt =====
-- internal/session/manager.go and create.go: the manager, the image policy, and
-- what `Create` takes and gives.
pub mod Images
pub mod Acquire
pub mod Create
pub mod Shell
pub mod ShellWord
pub mod Validate
pub mod Exec
pub mod Files
pub mod Query
pub mod WorkspaceFiles
pub mod Workspaces
pub mod Refusals
use sandkasten.Base.{
  ℕ, ◌+◌, Bool, true, false, ◌&&◌, ◌||◌, not, Option, none, some, List, [], ◌∷◌, length, take, ltb,
  leb, ◌==◌, if◌then◌else◌,
}
use sandkasten.Base.Int.{ℤ, pos, ◌+ℤ◌, ltb_ℤ, duration, second}
use sandkasten.Base.Text.{Bytes, codes, str_eq, contains, has_byte}
use sandkasten.Config.{Config}
use sandkasten.World.{
  Session, Status, running, destroyed, Sandbox, CreateOpts, Event, sandbox_create, sandbox_destroy,
  workspace_mount, workspace_exists, workspace_create, refill_started, clock_read, id_made, Env,
  World, Error, invalid_image, create_failed, workspace_check_failed, workspace_create_failed,
  Result, ok, err,
}
use sandkasten.World.Action.{Action, pure, fail, attempt, call, ignore, call_or_fail, ◌>>=◌, ◌>>◌}
use sandkasten.Store
use sandkasten.Pool
use sandkasten.Pool.{Pool, is_listed}

-- The manager's parts that do not change: `workspaces` tells whether it was given a workspace
-- manager, and `pool` is the pool, if there is one.
pub record Manager : Type 0 where
  pub cfg : Config
  pub pool : Option Pool
  pub workspaces : Bool

-- session.CreateOpts
pub record CreateRequest : Type 0 where
  pub image : Bytes
  pub ttl_seconds : ℤ
  pub workspace_id : Bytes

-- The texts of `AcquireSource` (empty outside `Create`) and `AcquireDetail`.
pub data Source : Type 0 where
  from_pool cold unstated : Source

pub data Detail : Type 0 where
  unset pool_empty pool_finish_acquire_failed pool_workspace_mismatch : Detail
  pool_mount_workspace_failed pool_update_workspace_failed pool_session_lookup_failed : Detail

-- session.SessionInfo
pub record Info : Type 0 where
  pub id : Bytes
  pub image : Bytes
  pub status : Status
  pub cwd : Bytes
  pub source : Source
  pub detail : Detail
  pub workspace_id : Bytes
  pub created_at : ℤ
  pub expires_at : ℤ

-- What the attempt to take a session from the pool comes to: a session, or the reason why not.
pub data Acquired : Type 0 where
  served : Info → Acquired
  unserved : Detail → Acquired

unfoldable pub is_alnum : ℕ → Bool
is_alnum c = leb b'a' c && leb c b'z' || leb b'A' c && leb c b'Z' || leb b'0' c && leb c b'9'

unfoldable pub is_name_byte : ℕ → Bool
unfolding is_alnum
is_name_byte c = is_alnum c || c == b'_' || c == b'-'

unfoldable pub all_bytes : (ℕ → Bool) → Bytes → Bool
all_bytes p [] = true
all_bytes p (c ∷ s) = p c && all_bytes p s

-- The regular expression ^[a-zA-Z0-9][a-zA-Z0-9_-]*$
unfoldable pub matches_name : Bytes → Bool
unfolding is_name_byte all_bytes
matches_name [] = false
matches_name (c ∷ s) = is_alnum c && all_bytes is_name_byte s

unfoldable pub is_image_name_safe : Bytes → Bool
is_image_name_safe image =
    if str_eq image [] || ltb 64 (length image)
    then false
    else if contains (codes "..") image || (has_byte b'/' image || has_byte b'\\' image)
    then false
    else matches_name image

abbrev is_unrestricted : List Bytes → Bool
is_unrestricted [] = true
is_unrestricted (a ∷ l) = false

unfoldable pub is_image_allowed : Config → Bytes → Bool
is_image_allowed cfg image =
    is_unrestricted cfg.allowed_images || is_listed image cfg.allowed_images

unfoldable pub resolve_image : Config → Bytes → Bytes
unfolding str_eq
resolve_image cfg image = if str_eq image [] then cfg.default_image else image

unfoldable pub resolve_ttl : Config → ℤ → ℤ
resolve_ttl cfg ttl = if ltb_ℤ (pos 0) ttl then ttl else cfg.session_ttl_seconds

-- now.Add(time.Duration(ttl) * time.Second)
unfoldable pub expiry : ℤ → ℤ → ℤ
unfolding duration
expiry now ttl = now +ℤ duration ttl second
