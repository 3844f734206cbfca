-- ===== src/Runtime/Driver.antt =====
-- internal/runtime/linux/driver.go, SetupFilesystem of mount.go and CreateCgroup of cgroup.go: how a
-- session's sandbox is built and torn down.
pub mod Keeps
pub mod Undo
pub mod Ends
pub mod Removal
use sandkasten.Base.{
  ℕ, ◌*◌, Bool, true, false, ◌&&◌, not, Option, none, some, List, [], ◌∷◌, ◌++◌, if◌then◌else◌,
}
use sandkasten.Base.Int.{ℤ, pos, negsuc, ltb_ℤ, duration}
use sandkasten.Base.Text.{Bytes, codes, str_eq}
use sandkasten.Base.Path.{join}
use sandkasten.Base.Decimal.{show_int}
use sandkasten.World.{CreateOpts}
use sandkasten.Runtime.Host.{
  SessionState, HostCall, stat, make_workspace, chown_workspace, mkdir, chown, chmod, mount_overlay,
  bind_workspace, mount_tmpfs, copy_host_file, bind_host_file, setup_minimal_dev,
  ensure_resolv_conf, remount_readonly, make_parent_cgroup, make_cgroup, write_limit, write_cpu_max,
  open_log, start_process, attach_process, wait_socket, write_state, signal_process, kill_process,
  kill_cgroup, remove_cgroup, unmount, remove_dir, remove_log, Host, Kernel, Outcome, done, failed,
  Operation, give, refuse, perform, attempt_all, or_else, noted, effect, ◌>>=◌, ◌>>◌,
}

-- The settings that the driver reads, and what getCgroupPath finds. The CPU limit is a float, of which only the sign matters here.
pub record Setup : Type 0 where
  pub data_dir : Bytes
  pub network_mode : Bytes
  pub cgroup_root : Bytes
  pub readonly_rootfs : Bool
  pub has_cpu_limit : Bool
  pub mem_limit_mb : ℤ
  pub pids_limit : ℤ

abbrev in_layers : Bytes → Bytes → Bytes
in_layers data_dir layer = join (join (join data_dir (codes "layers")) layer) (codes "rootfs")

-- The layers from the last to the first, behind the ones that are there.
unfoldable pub layer_dirs : Bytes → List Bytes → Bytes → Bytes
layer_dirs data_dir [] out = out
layer_dirs data_dir (layer ∷ layers) out =
    layer_dirs data_dir layers out ++ codes ":" ++ in_layers data_dir layer

-- lower: the colon-separated layers of meta.json, if it names any, else the image's own rootfs.
unfoldable pub lower_of : Bytes → Bytes → List Bytes → Bytes
lower_of data_dir image [] = join (join (join data_dir (codes "images")) image) (codes "rootfs")
lower_of data_dir image (layer ∷ layers) =
    layer_dirs data_dir (layer ∷ layers) (in_layers data_dir (codes "runner"))

is_layered : List Bytes → Bool
is_layered [] = false
is_layered (layer ∷ layers) = true

abbrev pub session_dir : Setup → Bytes → Bytes
session_dir s id = join (join s.data_dir (codes "sessions")) id

-- CgroupPath
abbrev pub cgroup_path : Setup → Bytes → Bytes
cgroup_path s id = join (join s.cgroup_root (codes "sandkasten")) id

abbrev pub runner_sock : ℤ → Bytes
runner_sock pid = codes "/proc/" ++ (show_int pid ++ codes "/root/run/sandkasten/runner.sock")

abbrev is_running : Option ℤ → Bool
is_running none = false
is_running (some pid) = true

-- The calls that clean up behind a failure, by how far Create has come.
abbrev pub on_mounts : List HostCall
on_mounts = unmount ∷ remove_dir ∷ []

abbrev pub on_cgroup : List HostCall
on_cgroup = remove_cgroup ∷ on_mounts

abbrev pub on_process : List HostCall
on_process = kill_process ∷ on_cgroup

unfoldable pub when : Bool → Operation (Unit {0}) → Operation (Unit {0})
when b m = if b then m else give tt

module _ (k : Kernel) where
  -- A limit that the process may not set is left out; any other failure is an error.
  unfoldable pub set_limit : HostCall → Operation (Unit {0})
  unfolding perform give
  set_limit c h = if k.is_permission (c ∷ h.calls) then (done tt, noted k c h) else perform k c h

  -- A call whose error is dropped.
  unfoldable pub drop_error : HostCall → Operation (Unit {0})
  unfolding attempt_all
  drop_error c h = (done tt, attempt_all k (c ∷ []) h)

  -- SetupFilesystem, for the session's directory, the lower layers and the workspace's directory, which
  -- is empty if there is none.
  pub setup_filesystem : Bytes → Bytes → Bytes → Operation (Unit {0})
  unfolding when
  setup_filesystem dir lower workspace_src = do
    let mnt = join dir (codes "mnt")
    let run_dst = join (join mnt (codes "run")) (codes "sandkasten")
    perform k (mkdir (join dir (codes "upper")))
    perform k (mkdir (join dir (codes "work")))
    perform k (mkdir mnt)
    perform k (mount_overlay lower)
    perform k (copy_host_file (codes "/etc/resolv.conf"))
    perform k (bind_host_file (codes "/etc/hosts"))
    perform k (mkdir (join mnt (codes "workspace")))
    when (not (str_eq workspace_src [])) (perform k (bind_workspace workspace_src))
    perform k (mkdir run_dst)
    perform k (mount_tmpfs run_dst)
    perform k (chown run_dst)
    perform k (chmod run_dst)
    perform k (mkdir (join mnt (codes "tmp")))
    perform k (mount_tmpfs (join mnt (codes "tmp")))
    perform k setup_minimal_dev

  module _ (s : Setup) where
    abbrev mem_bytes : ℤ
    mem_bytes = duration s.mem_limit_mb (1024 * 1024)

    -- CreateCgroup. enableControllers, which drops every error, is left out.
    pub create_cgroup : Operation (Unit {0})
    unfolding when
    create_cgroup = do
      perform k make_parent_cgroup
      perform k make_cgroup
      when (ltb_ℤ (pos 0) s.mem_limit_mb) (do
        set_limit (write_limit (codes "memory.max") mem_bytes)
        drop_error (write_limit (codes "memory.swap.max") (pos 0)))
      when (ltb_ℤ (pos 0) s.pids_limit) (set_limit (write_limit (codes "pids.max") s.pids_limit))
      when s.has_cpu_limit (set_limit write_cpu_max)

    -- The part of Create between the root file system and the cgroup.
    pub prepare_root : Bytes → Operation (Unit {0})
    unfolding when
    prepare_root mnt = do
      let home = join (join mnt (codes "home")) (codes "sandbox")
      when (not (str_eq s.network_mode (codes "none"))) (perform k ensure_resolv_conf)
      perform k (mkdir (join mnt (codes ".oldroot")))
      perform k (mkdir (join (join mnt (codes "dev")) (codes "pts")))
      perform k (mkdir home)
      perform k (mount_tmpfs home)
      perform k (chown home)
      when s.readonly_rootfs (perform k remount_readonly)

    pub make_workspace_dir : Bytes → Operation (Unit {0})
    make_workspace_dir workspace_src = do
      perform k (make_workspace workspace_src)
      perform k (chown_workspace workspace_src)

    -- cmd.Start, and the number of the process.
    start : Operation ℤ
    start = do perform k start_process; λ h. (done (k.pid h.calls), h)

    store_state : SessionState → Operation SessionState
    store_state state = do or_else k on_process (perform k (write_state state)); give state

    store_found : Bytes → Bytes → ℤ → Operation SessionState
    unfolding store_state
    store_found id mnt pid = do
      drop_error remove_log
      store_state (record {
        session_id = id;
        init_pid = pid;
        cgroup_path = cgroup_path s id;
        mnt = mnt;
        runner_sock = runner_sock pid;
        network_ready = false;
      })

    -- From the running process on.
    pub watch : Bytes → Bytes → ℤ → Operation SessionState
    unfolding store_found
    watch id mnt pid = do
      or_else k (remove_log ∷ on_process) (perform k attach_process)
      or_else k (remove_log ∷ on_process) (perform k wait_socket)
      store_found id mnt pid

    -- From the start of nsinit on.
    pub launch : Bytes → Bytes → Operation SessionState
    unfolding start watch
    launch id mnt = do
      or_else k on_cgroup (perform k open_log)
      pid ← or_else k (remove_log ∷ on_cgroup) start
      watch id mnt pid

    -- What follows the checks of the image and the workspace.
    pub build : Bytes → Bytes → Bytes → Operation SessionState
    build id lower workspace_src = do
      let dir = session_dir s id
      let mnt = join dir (codes "mnt")
      or_else k (remove_dir ∷ []) (setup_filesystem dir lower workspace_src)
      or_else k on_mounts (prepare_root mnt)
      or_else k on_mounts create_cgroup
      launch id mnt

    -- Create, for the layers that the image's meta.json names, none if it cannot be read.
    pub create : CreateOpts → List Bytes → Operation SessionState
    unfolding is_layered
    create opts layers = do
      let lower = lower_of s.data_dir opts.image layers
      let has_workspace = not (str_eq opts.workspace_id [])
      let workspace_src = join (join s.data_dir (codes "workspaces")) opts.workspace_id
      when (not (is_layered layers)) (perform k (stat lower))
      when has_workspace (make_workspace_dir workspace_src)
      build opts.session_id lower (if has_workspace then workspace_src else [])

  -- Destroy of a session whose state.json could be read: the parts that it names.
  stop_process : SessionState → Host → Host
  stop_process state h =
      let signalled = attempt_all k (signal_process ∷ []) h in
      let killed = attempt_all k (kill_process ∷ []) signalled in
      if ltb_ℤ (pos 0) state.init_pid
      then (if is_running signalled.process then killed else signalled)
      else h

  tear_down : SessionState → Host → Host
  unfolding stop_process
  tear_down state h =
      let stopped = stop_process state h in
      let freed =
        if str_eq state.cgroup_path []
        then stopped
        else attempt_all k (kill_cgroup ∷ remove_cgroup ∷ []) stopped in
      let detached = if str_eq state.mnt [] then freed else attempt_all k (unmount ∷ []) freed in
      attempt_all k (remove_dir ∷ []) detached

  destroy_stored : Option SessionState → Host → Host
  unfolding tear_down
  destroy_stored none h = attempt_all k (remove_dir ∷ []) h
  destroy_stored (some state) h = tear_down state h

  -- Destroy, without the release of the address, which stands in Network.
  pub destroy : Host → Host
  unfolding destroy_stored
  destroy h = destroy_stored h.state h
