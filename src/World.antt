-- ===== src/World.antt =====
-- What the daemon's packages share: the rows and requests that they pass (internal/store/store.go,
-- protocol/protocol.go, internal/runtime/driver.go), the errors that they return, and the world
-- that they act on. Code outside the repository and the kernel's side of the runtime answer through
-- `Env`: each answer may depend on every external call made before it.
pub mod Action
use sandkasten.Base.{ℕ, Bool, Option, List}
use sandkasten.Base.Int.{ℤ}
use sandkasten.Base.Text.{Bytes}

-- The texts that the program writes into the column `status`.
pub data Status : Type 0 where
  running pool_idle destroying destroyed expired crashed : Status

-- store.Session. Times are nanoseconds.
pub record Session : Type 0 where
  pub id : Bytes
  pub image : Bytes
  pub init_pid : ℤ
  pub cgroup_path : Bytes
  pub status : Status
  pub cwd : Bytes
  pub workspace_id : Bytes
  pub created_at : ℤ
  pub expires_at : ℤ
  pub last_activity : ℤ

-- protocol.RequestType, which is a text.
pub data RequestType : Type 0 where
  exec exec_stream write read : RequestType
  other_type : Bytes → RequestType

-- protocol.Request
pub record Request : Type 0 where
  pub id : Bytes
  pub kind : RequestType
  pub cmd : Bytes
  pub timeout_ms : ℤ
  pub raw_output : Bool
  pub path : Bytes
  pub content_base64 : Bytes
  pub text : Bytes
  pub max_bytes : ℤ

-- protocol.ResponseType
pub data ResponseType : Type 0 where
  exec_reply exec_chunk exec_done write_reply read_reply error_reply ready : ResponseType

-- protocol.Response, without the streaming fields that no runner fills.
pub record Response : Type 0 where
  pub id : Bytes
  pub kind : ResponseType
  pub exit_code : ℤ
  pub cwd : Bytes
  pub output : Bytes
  pub truncated : Bool
  pub duration_ms : ℤ
  pub ok : Bool
  pub content_base64 : Bytes
  pub error : Bytes

-- runtime.CreateOpts
pub record CreateOpts : Type 0 where
  pub session_id : Bytes
  pub image : Bytes
  pub workspace_id : Bytes

-- The fields of runtime.SessionInfo and pool.CreateResult that are stored.
pub record Sandbox : Type 0 where
  pub init_pid : ℤ
  pub cgroup_path : Bytes

-- protocol.SessionStats
pub record Stats : Type 0 where
  pub memory_bytes : ℤ
  pub memory_limit : ℤ
  pub cpu_usage_usec : ℤ

-- One entry for each call that leaves the daemon's own code.
pub data Event : Type 0 where
  statement clock_read id_made : Event
  slept : ℕ → Event
  sandbox_create : CreateOpts → Event
  sandbox_exec : Bytes → Request → Event
  sandbox_destroy : Bytes → Event
  sandbox_probe sandbox_stats : Bytes → Event
  workspace_mount : Bytes → Bytes → Event
  workspace_exists workspace_create : Bytes → Event
  dirs_listed : Event
  refill_started : Bytes → Bytes → ℤ → Event

-- The calls made so far, the newest first.
abbrev pub History : Type 0
History = List Event

-- The answers of the database driver, the runtime, the clock and the id generator. Each reads the
-- history that ends with the call it answers. `none` of `create`, `exec` and the like is an error.
pub record Env : Type 0 where
  pub db_error : History → Option Bytes
  pub rows_error : History → Option Bytes
  pub duplicate_error : Bytes
  pub now : History → ℤ
  pub uuid : History → Bytes
  pub create : History → Option Sandbox
  pub exec : History → Option Response
  pub destroy_fails : History → Bool
  pub mount_fails : History → Bool
  pub stats : History → Option Stats
  pub is_running : History → Option Bool
  pub session_dirs : History → Option (List Bytes)
  pub workspace_exists : History → Option Bool
  pub workspace_create_fails : History → Bool
  pub cancelled : History → Bool

-- The table `sessions`, the pool's map `idle`, the manager's map `locks` (whether it holds a mutex
-- for an id), and the calls made.
pub record World : Type 0 where
  pub table : List Session
  pub idle : Bytes → List Bytes
  pub locks : Bytes → Bool
  pub history : History

-- The errors of the packages session and store, one for each place that makes one.
pub data Error : Type 0 where
  db_failed : Bytes → Error
  no_row : Bytes → Error
  not_found : Bytes → Error
  not_running : Bytes → Status → Error
  session_expired : Bytes → Error
  invalid_image : Bytes → Error
  command_timeout : Bytes → Error
  runner_error : Bytes → Error
  create_failed exec_failed stage_failed write_failed read_failed : Error
  workspace_check_failed workspace_create_failed probe_failed dirs_failed stats_failed
        refill_cancelled :
      Error

pub data Result {ℓ} (A : Type ℓ) : Type ℓ where
  ok : A → Result A
  err : Error → Result A
