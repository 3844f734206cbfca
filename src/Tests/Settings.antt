-- ===== src/Tests/Settings.antt =====
-- Runs of the configuration and the start of the daemon on concrete environments.
use sandkasten.Base.{◌≡◌, ◌⊎◌, refl, true, false, none, some, [], ◌∷◌, if◌then◌else◌}
use sandkasten.Base.Text.{Bytes, codes, str_eq}
use sandkasten.Config.{
  Config, absent, default_config, load, overridden, apply_env_overrides, override,
}
use sandkasten.Api.Auth.{is_public_path, post}
use sandkasten.Api.Access.{Shows}
use sandkasten.Daemon.Start.{
  Machine, listening, unless_failed, filter_detach_args, is_listen_non_loopback, pid_file_fails,
  start_with, run_daemon,
}
use sandkasten.Daemon.Start.Guarded.{Local, run_daemon-serve}
use sandkasten.Tests.{auth_request, auth_served}

abbrev getenv : Bytes → Bytes
getenv name =
    if str_eq name (codes "SANDKASTEN_API_KEY")
    then codes "key"
    else if str_eq name (codes "SANDKASTEN_LISTEN")
    then codes "0.0.0.0:8080"
    else []

abbrev machine : Machine
machine = record {
  os_args = [];
  parse_flags = λ args. some (record { config = []; detach = false; detach_short = false });
  is_there = λ path. false;
  file = λ path. absent;
  unmarshal = λ text cfg. none;
  getenv = getenv;
  parse_float = λ text. none;
  split_host = λ listen. some (codes "0.0.0.0");
  is_loopback = λ host. some false;
  fails = λ call. false;
}

abbrev config : Config
config = record default_config { listen = codes "0.0.0.0:8080"; api_key = codes "key" }

starts : run_daemon machine [] ≡ listening config
unfolding run_daemon start_with is_listen_non_loopback pid_file_fails unless_failed load overridden
    apply_env_overrides override str_eq
starts = refl

run_daemon-serve_example :
    Local machine (codes "0.0.0.0:8080")
    ⊎ ((is_public_path (codes "/v1/sessions") post ≡ true) ⊎ Shows (codes "key") auth_request)
run_daemon-serve_example = run_daemon-serve machine [] config auth_request starts auth_served

detach_filtered :
    filter_detach_args (codes "daemon" ∷ codes "-d" ∷ codes "-detach" ∷ [])
    ≡ codes "daemon" ∷ codes "-detach" ∷ []
unfolding filter_detach_args str_eq
detach_filtered = refl
