-- ===== src/Runtime/Nsinit.antt =====
-- internal/runtime/linux/nsinit.go: the first process of a sandbox, which gives up what it may do before
-- it starts the runner, and the namespaces it starts in; the filter of system calls that it installs
-- stands in Runtime/Seccomp. A call that touches the system is
-- one `NsCall`; whether it fails is the kernel's answer, which may depend on all calls made so far.
pub mod Plans
pub mod Hardened
use sandkasten.Base.{
  ℕ, zero, suc, ◌*◌, ◌+◌, ◌%◌, ◌^◌, Bool, true, false, not, Option, none, some, List, [], ◌∷◌, ◌++◌,
  map, length, take, ltb, if◌then◌else◌,
}
use sandkasten.Base.Int.{ℤ, pos, ltb_ℤ}
use sandkasten.Base.Text.{Bytes, codes, str_eq}
use sandkasten.Base.Path.{join}
use sandkasten.Runtime.Seccomp.{Unix, SockFilter, seccomp_filter, deny_each}

pub data Capability : Type 0 where
  net_raw net_bind_service sys_admin sys_ptrace sys_module sys_rawio sys_time syslog : Capability
  sys_chroot sys_boot kill dac_override dac_read_search fowner fsetid setgid setuid : Capability
  setpcap linux_immutable net_broadcast ipc_lock ipc_owner sys_pacct mknod : Capability

-- NsinitConfig
pub record NsinitConfig : Type 0 where
  pub session_id : Bytes
  pub mnt : Bytes
  pub cgroup_path : Bytes
  pub runner_path : Bytes
  pub uid : ℤ
  pub gid : ℤ
  pub no_new_privs : Bool
  pub network_none : Bool
  pub network_bridge : Bool
  pub readonly : Bool
  pub seccomp : Bytes
  pub shell_prefer : Bytes
  pub exec_mode : Bytes

pub data NsCall : Type 0 where
  set_hostname bind_root private_root stat_dir : Bytes → NsCall
  make_private change_dir unmount_detach remove_all mount_proc mount_devpts : Bytes → NsCall
  pivot_to : Bytes → Bytes → NsCall
  set_no_new_privs : NsCall
  set_filter : ℕ → List SockFilter → NsCall
  drop_capability : Capability → NsCall
  set_gid set_uid : ℤ → NsCall
  find_interface read_cgroup : NsCall
  sleep : ℕ → NsCall
  exec_runner : Bytes → List Bytes → List Bytes → NsCall

-- A call, and whether it succeeded; the last call stands first.
abbrev pub Log : Type 0
Log = List (NsCall × Bool)

-- What the kernel answers: a failure; whether a path is a directory, what /proc/self/cgroup shows.
pub record NsKernel : Type 0 where
  pub fails : Log → NsCall → Bool
  pub is_dir : Log → Bool
  pub shows_session : Log → Bool

-- A panic is that of slicing a session id of less than eight bytes.
pub data NsError : Type 0 where
  call_failed : NsCall → NsError
  not_a_directory unknown_profile sliced_out_of_range : NsError

pub data Ended : Type 0 where
  done : Ended
  failed : NsError → Ended

abbrev pub Stage : Type 0
Stage = Log → Ended × Log

unfoldable pub give : Stage
give g = (done, g)

unfoldable pub refuse : NsError → Stage
refuse e g = (failed e, g)

abbrev pub go_on : Ended → Stage → Stage
go_on done n g = n g
go_on (failed e) n g = (failed e, g)

infixl 5 ◌>>◌
unfoldable pub ◌>>◌ : Stage → Stage → Stage
◌>>◌ m n g = let (r, g') = m g in go_on r n g'

unfoldable pub when : Bool → Stage → Stage
when b m = if b then m else give

-- The order of dropCapabilities.
abbrev pub dropped : List Capability
dropped =
    net_raw ∷ net_bind_service ∷ sys_admin ∷ sys_ptrace ∷ sys_module ∷ sys_rawio ∷ sys_time ∷ syslog
    ∷ sys_chroot ∷ sys_boot ∷ kill ∷ dac_override ∷ dac_read_search ∷ fowner ∷ fsetid ∷ setgid
    ∷ setuid ∷ setpcap ∷ linux_immutable ∷ net_broadcast ∷ ipc_lock ∷ ipc_owner ∷ sys_ptrace
    ∷ sys_pacct ∷ mknod ∷ []

-- The arguments of the runner.
abbrev with_env : Bytes → Bytes → List Bytes
with_env name value = if str_eq value [] then [] else (name ++ value) ∷ []

abbrev pub runner_env : NsinitConfig → List Bytes
runner_env cfg =
    (codes "PATH=/usr/local/bin:/usr/bin:/bin"
      ∷ codes "HOME=/home/sandbox"
      ∷ codes "TERM=xterm"
      ∷ codes "LANG=C.UTF-8"
      ∷ [])
    ++ with_env (codes "SANDKASTEN_SHELL_PREFER=") cfg.shell_prefer
    ++ with_env (codes "SANDKASTEN_EXEC_MODE=") cfg.exec_mode

module _ (u : Unix) (kernel : NsKernel) where
  -- A call whose error ends nsinit, and one whose error is dropped.
  unfoldable pub perform : NsCall → Stage
  perform c g =
      if kernel.fails g c then (failed (call_failed c), (c, false) ∷ g) else (done, (c, true) ∷ g)

  unfoldable pub drop_error : NsCall → Stage
  drop_error c g = (done, (c, not (kernel.fails g c)) ∷ g)

  -- The tolerant loops: they end when the call shows what they wait for.
  unfoldable pub wait_for : (Log → Bool) → NsCall → ℕ → ℕ → Stage
  wait_for ready c ms zero g = (done, g)
  wait_for ready c ms (suc rounds) g =
      let g' : Log = (c, not (kernel.fails g c)) ∷ g in
      let later = wait_for ready c ms rounds ((sleep ms, true) ∷ g') in
      if kernel.fails g c then later else if ready g' then (done, g') else later

  -- installSeccompFilter, with the uint16 of its length.
  abbrev pub install_filter : Bool → Stage
  install_filter strict =
      let filters = seccomp_filter u strict in
      perform (set_filter (length filters % 2 ^ 16) filters)

  -- applySeccomp
  unfoldable pub apply_seccomp : Bytes → Stage
  unfolding perform seccomp_filter give refuse
  apply_seccomp profile =
      if str_eq profile []
      then give
      else if str_eq profile (codes "off")
      then give
      else if str_eq profile (codes "mvp")
      then install_filter false
      else if str_eq profile (codes "strict")
      then install_filter true
      else refuse unknown_profile

  -- dropCapabilities
  unfoldable pub drop_capabilities : List Capability → Stage
  unfolding perform give
  drop_capabilities [] = give
  drop_capabilities (c ∷ cs) = perform (drop_capability c) >> drop_capabilities cs

  unfoldable pub check_dir : Stage
  check_dir g = if kernel.is_dir g then (done, g) else (failed not_a_directory, g)

  -- Up to the mounts inside the new root.
  unfoldable pub change_root : NsinitConfig → Stage
  unfolding perform drop_error check_dir
  change_root cfg = do
    let old_root = join cfg.mnt (codes ".oldroot")
    perform (set_hostname (codes "sk-" ++ take 8 cfg.session_id))
    perform (make_private (codes "/"))
    perform (bind_root cfg.mnt)
    drop_error (private_root cfg.mnt)
    perform (stat_dir old_root)
    check_dir
    perform (pivot_to cfg.mnt old_root)
    perform (change_dir (codes "/"))
    drop_error (unmount_detach (codes "/.oldroot"))
    drop_error (remove_all (codes "/.oldroot"))
    perform (mount_proc (codes "/proc"))
    perform (mount_devpts (codes "/dev/pts"))

  -- From the first restriction to the user's id.
  unfoldable pub give_up_rights : NsinitConfig → Stage
  unfolding perform apply_seccomp drop_capabilities when
  give_up_rights cfg = do
    when cfg.no_new_privs (perform set_no_new_privs)
    apply_seccomp cfg.seccomp
    drop_capabilities dropped
    when (ltb_ℤ (pos 0) cfg.gid) (perform (set_gid cfg.gid))
    when (ltb_ℤ (pos 0) cfg.uid) (perform (set_uid cfg.uid))

  unfoldable pub start_runner : NsinitConfig → Stage
  unfolding perform wait_for when
  start_runner cfg = do
    when cfg.network_bridge (wait_for (λ g. true) find_interface 100 50)
    wait_for kernel.shows_session read_cgroup 10 100
    perform (exec_runner cfg.runner_path (cfg.runner_path ∷ []) (runner_env cfg))

  -- nsinitMain; `done` is the exec of the runner, from which no call returns.
  unfoldable pub nsinit_main : NsinitConfig → Stage
  unfolding change_root give_up_rights start_runner
  nsinit_main cfg =
      if ltb (length cfg.session_id) 8
      then refuse sliced_out_of_range
      else (do change_root cfg; give_up_rights cfg; start_runner cfg)

-- The namespaces that LaunchNsinit asks for.
pub data Namespace : Type 0 where
  newns newpid newuts newipc newuser newnet : Namespace

unfoldable pub clone_flags : NsinitConfig → List Namespace
clone_flags cfg =
    newns ∷ newpid ∷ newuts ∷ newipc ∷ newuser ∷ (if cfg.network_none then newnet ∷ [] else [])

-- The settings that the driver hands on.
pub record Profile : Type 0 where
  pub network_mode : Bytes
  pub readonly_rootfs : Bool
  pub seccomp : Bytes
  pub shell_prefer : Bytes
  pub exec_mode : Bytes

-- nsConfig of the driver's Create, for a session's id, its root file system and its cgroup. The field
-- NetworkBridge is left at its zero value.
unfoldable pub ns_config : Profile → Bytes → Bytes → Bytes → NsinitConfig
ns_config p id mnt cgroup = record {
  session_id = id;
  mnt = mnt;
  cgroup_path = cgroup;
  runner_path = codes "/usr/local/bin/runner";
  uid = pos 1000;
  gid = pos 1000;
  no_new_privs = true;
  network_none = not (str_eq p.network_mode (codes "host"));
  network_bridge = false;
  readonly = p.readonly_rootfs;
  seccomp = p.seccomp;
  shell_prefer = p.shell_prefer;
  exec_mode = p.exec_mode;
}
