-- ===== src/Daemon/Start.antt =====
-- cmd/sandkasten/main.go: runDaemon up to the point where the server listens, with daemonize and
-- writePidFileIfDetached of commands_linux.go. The flag package, net.SplitHostPort and net.ParseIP, the
-- environment and how the other calls end are arguments; printing and logging are left out.
pub mod Guarded
use sandkasten.Base.{
  ℕ, Bool, true, false, not, ◌&&◌, ◌||◌, Option, none, some, List, [], ◌∷◌, if◌then◌else◌,
}
use sandkasten.Base.Text.{Bytes, codes, str_eq}
use sandkasten.Config.{Config, ConfigFile, not_given, load}

-- The flags that runDaemon reads.
pub record Flags : Type 0 where
  pub config : Bytes
  pub detach : Bool
  pub detach_short : Bool

-- filterDetachArgs
unfoldable pub filter_detach_args : List Bytes → List Bytes
filter_detach_args [] = []
filter_detach_args (a ∷ args) =
    let rest = filter_detach_args args in
    if str_eq a (codes "-d") || str_eq a (codes "--detach") then rest else a ∷ rest

-- The calls of the start, and which of them fail.
pub data StartCall : Type 0 where
  make_run_dir open_log open_null write_pid open_store new_driver ping : StartCall
  start_child : List Bytes → StartCall

-- `os_args` is os.Args[1:].
pub record Machine : Type 0 where
  pub os_args : List Bytes
  pub parse_flags : List Bytes → Option Flags
  pub is_there : Bytes → Bool
  pub file : Bytes → ConfigFile
  pub unmarshal : Bytes → Config → Option Config
  pub getenv : Bytes → Bytes
  pub parse_float : Bytes → Option ℕ
  pub split_host : Bytes → Option Bytes
  pub is_loopback : Bytes → Option Bool
  pub fails : StartCall → Bool

-- The daemon listens, has started itself again in the background, or has stopped with the code 1.
pub data Started : Type 0 where
  listening : Config → Started
  in_background stopped : Started

-- A call whose error stops the start.
unfoldable pub unless_failed : Bool → Started → Started
unless_failed true s = stopped
unless_failed false s = s

module _ (x : Machine) where
  abbrev pub loopback_of : Option Bool → Bool
  loopback_of none = true
  loopback_of (some loopback) = not loopback

  abbrev pub host_of : Option Bytes → Bool
  host_of none = true
  host_of (some []) = true
  host_of (some (c ∷ host)) = loopback_of (x.is_loopback (c ∷ host))

  -- isListenNonLoopback; `split_host` and `is_loopback` give `none` on an error.
  unfoldable pub is_listen_non_loopback : Bytes → Bool
  is_listen_non_loopback listen = host_of (x.split_host listen)

  -- The path of the configuration: the flag's, or the first of two that is there.
  abbrev pub config_path : Bytes → Bytes
  config_path given =
      if not (str_eq given [])
      then given
      else if x.is_there (codes "sandkasten.yaml")
      then codes "sandkasten.yaml"
      else if x.is_there (codes "/etc/sandkasten/sandkasten.yaml")
      then codes "/etc/sandkasten/sandkasten.yaml"
      else []

  abbrev pub config_file : Bytes → ConfigFile
  config_file [] = not_given
  config_file (c ∷ path) = x.file (c ∷ path)

  -- daemonize, which does not return when it succeeds.
  abbrev pub daemonize : Started
  daemonize = unless_failed (x.fails make_run_dir) (
      unless_failed (x.fails open_log) (
        unless_failed (x.fails open_null)
          (unless_failed (x.fails (start_child (filter_detach_args x.os_args))) in_background)))

  -- writePidFileIfDetached
  unfoldable pub pid_file_fails : Bool
  pid_file_fails =
      str_eq (x.getenv (codes "SANDKASTEN_DETACHED")) (codes "1")
      && (x.fails make_run_dir || x.fails write_pid)

  -- From the open store on.
  abbrev pub connect : Config → Started
  connect cfg =
      unless_failed (x.fails open_store)
        (unless_failed (x.fails new_driver) (unless_failed (x.fails ping) (listening cfg)))

  -- What follows the configuration.
  unfoldable pub start_with : Bool → Config → Started
  unfolding is_listen_non_loopback pid_file_fails unless_failed
  start_with detached cfg =
      if detached
      then daemonize
      else if pid_file_fails
      then stopped
      else if str_eq cfg.api_key [] && is_listen_non_loopback cfg.listen
      then stopped
      else connect cfg

  abbrev pub loaded : Bool → Option Config → Started
  loaded detached none = stopped
  loaded detached (some cfg) = start_with detached cfg

  abbrev pub flagged : Option Flags → Started
  flagged none = stopped
  flagged (some f) =
      loaded (f.detach || f.detach_short)
        (load x.getenv x.parse_float x.unmarshal (config_file (config_path f.config)))

  -- runDaemon
  unfoldable pub run_daemon : List Bytes → Started
  unfolding start_with
  run_daemon args = flagged (x.parse_flags args)
