-- ===== src/Tests/Runtime.antt =====
-- Runs of the model of the Linux runtime on concrete inputs.
use sandkasten.Base.{refl, arith, true, false, none, some, []}
use sandkasten.Base.Int.{pos}
use sandkasten.Base.Text.{Bytes, codes, str_eq}
use sandkasten.World.{CreateOpts}
use sandkasten.Runtime.Host.{SessionState, Host, Kernel}
use sandkasten.Runtime.Driver.{Setup, create, destroy}
use sandkasten.Runtime.Driver.Undo.{Cleans, IsClean}
use sandkasten.Runtime.Driver.Ends.{CreateEnds, create-Ends}
use sandkasten.Runtime.Driver.Removal.{destroy-IsClean}
use sandkasten.Runtime.Workspace.{
  MountEnds, workspace_dir, mount_workspace, mount_workspace-MountEnds,
}
use sandkasten.Runtime.Network.{allocate_ip, release_ip}
use sandkasten.Runtime.Network.Scan.{Scanned, allocate_ip-Scanned}
use sandkasten.Runtime.Network.Allotment.{IsAllotted, fresh_pool, fresh, freed, Reached-IsAllotted}

abbrev session_id : Bytes
session_id = codes "0123abcd-456"

abbrev setup : Setup
setup = record {
  data_dir = codes "/var/lib/sandkasten";
  network_mode = codes "none";
  cgroup_root = codes "/sys/fs/cgroup";
  readonly_rootfs = true;
  has_cpu_limit = true;
  mem_limit_mb = pos 512;
  pids_limit = pos 256;
}

abbrev kernel : Kernel
kernel = record {
  fails = λ l. false;
  is_permission = λ l. false;
  ignores_signal = λ l. true;
  pid = λ l. pos 42;
}

abbrev empty_host : Host
empty_host = record {
  dir = false;
  mounted = false;
  root_writable = false;
  bound = none;
  wiped = false;
  cgroup = false;
  process = none;
  state = none;
  calls = [];
}

abbrev state : SessionState
state = record {
  session_id = session_id;
  init_pid = pos 42;
  cgroup_path = codes "/sys/fs/cgroup/sandkasten/0123abcd-456";
  mnt = codes "/var/lib/sandkasten/sessions/0123abcd-456/mnt";
  runner_sock = codes "/proc/42/root/run/sandkasten/runner.sock";
  network_ready = false;
}

abbrev running_host : Host
running_host = record {
  dir = true;
  mounted = true;
  root_writable = false;
  bound = some (codes "/var/lib/sandkasten/workspaces/a");
  wiped = false;
  cgroup = true;
  process = some (pos 42);
  state = some state;
  calls = [];
}

kernel-Cleans : Cleans kernel
kernel-Cleans = record {
  kills = λ l. refl;
  removes_cgroup = λ l. refl;
  unmounts = λ l. refl;
  removes_dir = λ l. refl;
}

empty_host-IsClean : IsClean false empty_host
empty_host-IsClean = record {
  no_dir = refl;
  no_mount = refl;
  no_bind = refl;
  no_cgroup = refl;
  no_process = refl;
  same_wiped = refl;
}

abbrev opts : CreateOpts
opts = record { session_id = session_id; image = codes "base"; workspace_id = codes "a" }

create-Ends_example : CreateEnds kernel setup false (create kernel setup opts [] empty_host)
create-Ends_example =
    create-Ends kernel setup opts [] false empty_host kernel-Cleans empty_host-IsClean

destroy-IsClean_example : IsClean false (destroy kernel running_host)
destroy-IsClean_example =
    destroy-IsClean kernel kernel-Cleans state running_host refl refl (unfold str_eq in refl)
      (unfold str_eq in refl)

allocate_ip-Scanned_example :
    Scanned session_id fresh_pool (allocate_ip 65534 session_id fresh_pool)
allocate_ip-Scanned_example =
    allocate_ip-Scanned 65534 session_id fresh_pool
      (record { from_first = omega arith; to_last = omega arith }) (omega arith)

Reached-IsAllotted_example : IsAllotted (release_ip session_id fresh_pool)
Reached-IsAllotted_example =
    Reached-IsAllotted (release_ip session_id fresh_pool) (freed session_id fresh_pool fresh)

mount_workspace-MountEnds_example :
    MountEnds
      (workspace_dir setup (codes "b"))
      running_host
      (mount_workspace kernel setup (some state) (codes "b") running_host)
mount_workspace-MountEnds_example =
    mount_workspace-MountEnds kernel setup (some state) (codes "b") running_host
