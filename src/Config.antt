-- ===== src/Config.antt =====
-- internal/config/config.go: the settings, Load and applyEnvOverrides. The YAML package, what is at the
-- given path, the environment and strconv.ParseFloat are arguments; a float64 is its 64 bits.
pub mod Overrides
use sandkasten.Base.{
  ℕ, ◌*◌, ◌^◌, Bool, true, false, ◌||◌, Option, none, some, List, [], ◌∷◌, if◌then◌else◌,
}
use sandkasten.Base.Int.{ℤ, pos, leb_ℤ}
use sandkasten.Base.Text.{Bytes, codes, str_eq}
use sandkasten.Base.Path.{split}
use sandkasten.Base.Decimal.{atoi}

-- Config, with the fields of its parts Defaults, PoolConfig, WorkspaceConfig, SecurityConfig and
-- DashboardConfig.
pub record Config : Type 0 where
  pub listen : Bytes
  pub api_key : Bytes
  pub data_dir : Bytes
  pub default_image : Bytes
  pub allowed_images : List Bytes
  pub db_path : Bytes
  pub db_max_open_conns : ℤ
  pub session_ttl_seconds : ℤ
  pub playground_config_path : Bytes
  pub cpu_limit : ℕ
  pub mem_limit_mb : ℤ
  pub pids_limit : ℤ
  pub max_exec_timeout_ms : ℤ
  pub network_mode : Bytes
  pub readonly_rootfs : Bool
  pub exec_mode : Bytes
  pub shell_prefer : Bytes
  pub pool_enabled : Bool
  pub pool_images : List (Bytes × ℤ)
  pub workspace_enabled : Bool
  pub persist_by_default : Bool
  pub seccomp : Bytes
  pub dashboard_enabled : Bool

abbrev pub default_config : Config
default_config = record {
  listen = codes "127.0.0.1:8080";
  api_key = [];
  data_dir = codes "/var/lib/sandkasten";
  default_image = codes "base";
  allowed_images = [];
  db_path = codes "/var/lib/sandkasten/sandkasten.db";
  db_max_open_conns = pos 0;
  session_ttl_seconds = pos 1800;
  playground_config_path = [];
  cpu_limit = 1023 * 2 ^ 52;
  mem_limit_mb = pos 512;
  pids_limit = pos 256;
  max_exec_timeout_ms = pos 120000;
  network_mode = codes "none";
  readonly_rootfs = true;
  exec_mode = [];
  shell_prefer = [];
  pool_enabled = false;
  pool_images = [];
  workspace_enabled = false;
  persist_by_default = false;
  seccomp = codes "off";
  dashboard_enabled = false;
}

-- strconv.ParseBool
abbrev pub is_one_of : Bytes → List Bytes → Bool
is_one_of s [] = false
is_one_of s (t ∷ ts) = str_eq s t || is_one_of s ts

abbrev pub true_words : List Bytes
true_words = codes "1" ∷ codes "t" ∷ codes "T" ∷ codes "TRUE" ∷ codes "true" ∷ codes "True" ∷ []

abbrev pub false_words : List Bytes
false_words = codes "0" ∷ codes "f" ∷ codes "F" ∷ codes "FALSE" ∷ codes "false" ∷ codes "False" ∷ []

unfoldable pub parse_bool : Bytes → Option Bool
parse_bool s =
    if is_one_of s true_words
    then some true
    else (if is_one_of s false_words then some false else none)

-- A setting that a variable replaces if it is set and can be read.
abbrev pub or_old : {A : Type 0} → A → Option A → A
or_old old none = old
or_old old (some a) = a

unfoldable pub override : {A : Type 0} → (Bytes → Option A) → Bytes → A → A
override parse v old = if str_eq v [] then old else or_old old (parse v)

abbrev non_negative : Option ℤ → Option ℤ
non_negative none = none
non_negative (some n) = if leb_ℤ (pos 0) n then some n else none

unfoldable pub parse_conns : Bytes → Option ℤ
parse_conns v = non_negative (atoi v)

abbrev pub as_text : Bytes → Option Bytes
as_text v = some v

abbrev pub as_list : Bytes → Option (List Bytes)
as_list v = some (split b',' v)

-- What the path of the YAML file leads to.
pub data ConfigFile : Type 0 where
  not_given absent unreadable : ConfigFile
  content : Bytes → ConfigFile

module _ (getenv : Bytes → Bytes) (parse_float : Bytes → Option ℕ) where
  -- applyEnvOverrides
  unfoldable pub apply_env_overrides : Config → Config
  apply_env_overrides cfg = record cfg {
    listen = override as_text (getenv (codes "SANDKASTEN_LISTEN")) cfg.listen;
    api_key = override as_text (getenv (codes "SANDKASTEN_API_KEY")) cfg.api_key;
    default_image = override as_text (getenv (codes "SANDKASTEN_DEFAULT_IMAGE")) cfg.default_image;
    allowed_images =
        override as_list (getenv (codes "SANDKASTEN_ALLOWED_IMAGES")) cfg.allowed_images;
    db_path = override as_text (getenv (codes "SANDKASTEN_DB_PATH")) cfg.db_path;
    db_max_open_conns =
        override parse_conns (getenv (codes "SANDKASTEN_DB_MAX_OPEN_CONNS")) cfg.db_max_open_conns;
    session_ttl_seconds =
        override atoi (getenv (codes "SANDKASTEN_SESSION_TTL_SECONDS")) cfg.session_ttl_seconds;
    cpu_limit = override parse_float (getenv (codes "SANDKASTEN_CPU_LIMIT")) cfg.cpu_limit;
    mem_limit_mb = override atoi (getenv (codes "SANDKASTEN_MEM_LIMIT_MB")) cfg.mem_limit_mb;
    pids_limit = override atoi (getenv (codes "SANDKASTEN_PIDS_LIMIT")) cfg.pids_limit;
    max_exec_timeout_ms =
        override atoi (getenv (codes "SANDKASTEN_MAX_EXEC_TIMEOUT_MS")) cfg.max_exec_timeout_ms;
    network_mode = override as_text (getenv (codes "SANDKASTEN_NETWORK_MODE")) cfg.network_mode;
    readonly_rootfs =
        override parse_bool (getenv (codes "SANDKASTEN_READONLY_ROOTFS")) cfg.readonly_rootfs;
    exec_mode = override as_text (getenv (codes "SANDKASTEN_EXEC_MODE")) cfg.exec_mode;
    shell_prefer = override as_text (getenv (codes "SANDKASTEN_SHELL_PREFER")) cfg.shell_prefer;
    playground_config_path =
        override as_text (getenv (codes "SANDKASTEN_PLAYGROUND_CONFIG_PATH"))
          cfg.playground_config_path;
    data_dir = override as_text (getenv (codes "SANDKASTEN_DATA_DIR")) cfg.data_dir;
    seccomp = override as_text (getenv (codes "SANDKASTEN_SECCOMP")) cfg.seccomp;
    pool_enabled = override parse_bool (getenv (codes "SANDKASTEN_POOL_ENABLED")) cfg.pool_enabled;
    dashboard_enabled =
        override parse_bool (getenv (codes "SANDKASTEN_DASHBOARD_ENABLED")) cfg.dashboard_enabled;
  }

  unfoldable pub overridden : Option Config → Option Config
  overridden none = none
  overridden (some cfg) = some (apply_env_overrides cfg)

  -- Load, where `unmarshal` reads a text into a configuration that has the defaults.
  unfoldable pub load : (Bytes → Config → Option Config) → ConfigFile → Option Config
  unfolding overridden
  load unmarshal not_given = overridden (some default_config)
  load unmarshal absent = overridden (some default_config)
  load unmarshal unreadable = none
  load unmarshal (content text) = overridden (unmarshal text default_config)
