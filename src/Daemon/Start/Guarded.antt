-- ===== src/Daemon/Start/Guarded.antt =====
-- Who can reach a daemon that listens.
use sandkasten.Base.{
  ◌≡◌, ◌≢◌, refl, subst, arith, Bool, true, false, ◌||◌, Option, none, some, List, [], ◌∷◌,
  Bool-cases, ◌⊎◌, inl, inr, if◌then◌else◌,
}
use sandkasten.Base.Text.{Bytes, str_eq, str_eq_iff}
use sandkasten.Config.{Config, load}
use sandkasten.Api.Auth.{HttpRequest, serve, is_public_path, auth_middleware}
use sandkasten.Api.Access.{Shows, auth_middleware-serve}
use sandkasten.Daemon.Start.{
  Flags, filter_detach_args, make_run_dir, open_log, open_null, open_store, new_driver, ping,
  start_child, Machine, Started, listening, in_background, stopped, unless_failed, loopback_of,
  host_of, is_listen_non_loopback, config_path, config_file, daemonize, pid_file_fails, connect,
  start_with, loaded, flagged, run_daemon,
}

unless_failed-listening :
    (b : Bool) (s : Started) (cfg : Config) → unless_failed b s ≡ listening cfg → s ≡ listening cfg
unfolding unless_failed
unless_failed-listening true s cfg h = cc h
unless_failed-listening false s cfg h = h

gates-listening :
    (d p g : Bool) (a c : Started) (cfg : Config)
    → a ≢ listening cfg
    → (if d then a else if p then stopped else if g then stopped else c) ≡ listening cfg
    → (g ≡ false) × (c ≡ listening cfg)
gates-listening true p g a c cfg n h = elim (n h) [ ]
gates-listening false true g a c cfg n h = cc h
gates-listening false false true a c cfg n h = cc h
gates-listening false false false a c cfg n h = (refl, h)

module _ (x : Machine) where
  -- The listen address names a loopback address.
  abbrev pub Local : Bytes → Type 0
  Local listen =
      (host : Bytes) × (x.split_host listen ≡ some host) × (x.is_loopback host ≡ some true)

  loopback_known : (o : Option Bool) → loopback_of x o ≡ false → o ≡ some true
  loopback_known none h = cc h
  loopback_known (some true) h = refl
  loopback_known (some false) h = cc h

  host_known :
      (o : Option Bytes)
      → host_of x o ≡ false
      → (host : Bytes) × (o ≡ some host) × (x.is_loopback host ≡ some true)
  host_known none h = cc h
  host_known (some []) h = cc h
  host_known (some (c ∷ host)) h = (c ∷ host, refl, loopback_known (x.is_loopback (c ∷ host)) h)

  not_background : (cfg : Config) → daemonize x ≢ listening cfg
  not_background cfg h =
      let run = unless_failed-listening (x.fails make_run_dir) _ cfg h in
      let log = unless_failed-listening (x.fails open_log) _ cfg run in
      let null = unless_failed-listening (x.fails open_null) _ cfg log in
      cc (
        unless_failed-listening (x.fails (start_child (filter_detach_args x.os_args))) in_background
          cfg null)

  connect-config : (cfg cfg' : Config) → connect x cfg ≡ listening cfg' → cfg ≡ cfg'
  connect-config cfg cfg' h =
      let store = unless_failed-listening (x.fails open_store) _ cfg' h in
      let driver = unless_failed-listening (x.fails new_driver) _ cfg' store in
      let pinged = unless_failed-listening (x.fails ping) (listening cfg) cfg' driver in cc pinged

  -- Where the daemon listens, its address is a loopback address, or a key is configured.
  start_with-Local :
      (detached : Bool) (cfg cfg' : Config)
      → start_with x detached cfg ≡ listening cfg'
      → Local cfg'.listen ⊎ (cfg'.api_key ≢ [])
  unfolding start_with
  start_with-Local detached cfg cfg' h =
      let (closed, c) =
        gates-listening detached (pid_file_fails x) _ (daemonize x) (connect x cfg) cfg'
          (not_background cfg') h in
      subst (λ (c : Config). Local c.listen ⊎ (c.api_key ≢ [])) (connect-config cfg cfg' c)
        (elim (Bool-cases (str_eq cfg.api_key [])) [
          | inl e ↦ inl (
              host_known (x.split_host cfg.listen)
                (unfold is_listen_non_loopback in (ground arith)))
          | inr e ↦ inr λ q. cc (e, (str_eq_iff cfg.api_key []).1 q)
        ])

  flagged-Local :
      (f : Option Flags) (cfg : Config)
      → flagged x f ≡ listening cfg
      → Local cfg.listen ⊎ (cfg.api_key ≢ [])
  flagged-Local none cfg h = cc h
  flagged-Local (some f) cfg h =
      of (load x.getenv x.parse_float x.unmarshal (config_file x (config_path x f.config))) h
    where
      of :
          (o : Option Config)
          → loaded x (f.detach || f.detach_short) o ≡ listening cfg
          → Local cfg.listen ⊎ (cfg.api_key ≢ [])
      of none h = cc h
      of (some c) h = start_with-Local (f.detach || f.detach_short) c cfg h

  -- When the daemon comes to listen, then it listens on a loopback address, or every request that
  -- authMiddleware hands on has a public path and method or shows the configured key.
  pub run_daemon-serve :
      (args : List Bytes) (cfg : Config) (r : HttpRequest)
      → run_daemon x args ≡ listening cfg
      → auth_middleware cfg.api_key r ≡ serve
      → Local cfg.listen ⊎ ((is_public_path r.path r.method ≡ true) ⊎ Shows cfg.api_key r)
  unfolding run_daemon
  run_daemon-serve args cfg r h s = guarded (flagged-Local (x.parse_flags args) cfg h)
    where
      guarded :
          Local cfg.listen ⊎ (cfg.api_key ≢ [])
          → Local cfg.listen ⊎ ((is_public_path r.path r.method ≡ true) ⊎ Shows cfg.api_key r)
      guarded (inl l) = inl l
      guarded (inr k) = inr (auth_middleware-serve cfg.api_key r k s)
