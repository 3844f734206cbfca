-- ===== src/Runtime/Host.antt =====
-- internal/runtime/linux: what the driver does to the host for one session. Every directory, mount,
-- cgroup and process that an operation names is that session's, so the state is one session's part of
-- the host. A system call, or a helper of mount.go that only makes such calls inside the root file
-- system, is one `HostCall`; whether it fails is the kernel's answer.

pub mod Stages
use sandkasten.Base.{ℕ, Bool, true, false, Option, none, some, List, [], ◌∷◌, if◌then◌else◌}
use sandkasten.Base.Int.{ℤ}
use sandkasten.Base.Text.{Bytes}

-- protocol.SessionState
pub record SessionState : Type 0 where
  pub session_id : Bytes
  pub init_pid : ℤ
  pub cgroup_path : Bytes
  pub mnt : Bytes
  pub runner_sock : Bytes
  pub network_ready : Bool

-- The system calls, with the path that they name where it tells them apart.
pub data HostCall : Type 0 where
  stat make_workspace chown_workspace mkdir chown chmod : Bytes → HostCall
  mount_overlay bind_workspace : Bytes → HostCall
  mount_tmpfs copy_host_file bind_host_file : Bytes → HostCall
  setup_minimal_dev ensure_resolv_conf remount_readonly : HostCall
  make_parent_cgroup make_cgroup : HostCall
  write_limit : Bytes → ℤ → HostCall
  write_cpu_max : HostCall
  open_log start_process attach_process wait_socket read_state : HostCall
  write_state : SessionState → HostCall
  signal_process kill_process kill_cgroup remove_cgroup unmount remove_dir remove_log : HostCall
  enter_and_bind bind_from_host : Bytes → HostCall
  remount_inside : Bool → HostCall

-- The session's directory, its root file system, whether that can be written, and the workspace bound
-- into it, its cgroup, its
-- init process and what state.json holds; and whether the files of a workspace were deleted.
pub record Host : Type 0 where
  pub dir : Bool
  pub mounted : Bool
  pub root_writable : Bool
  pub bound : Option Bytes
  pub wiped : Bool
  pub cgroup : Bool
  pub process : Option ℤ
  pub state : Option SessionState
  pub calls : List HostCall

-- What the kernel answers to a call, which may depend on all calls before it: whether it fails, whether
-- for a lack of permission; whether the process outlives SIGTERM; the number of a new process.
pub record Kernel : Type 0 where
  pub fails : List HostCall → Bool
  pub is_permission : List HostCall → Bool
  pub ignores_signal : List HostCall → Bool
  pub pid : List HostCall → ℤ

-- os.RemoveAll does not stop at a mount: where the root file system is still mounted it deletes what
-- it finds there, the files of a bound workspace included, and cannot remove the directory itself.
abbrev is_bound : Option Bytes → Bool
is_bound none = false
is_bound (some w) = true

abbrev removed_dir : Host → Host
removed_dir h =
    if h.mounted
    then record h { wiped = if is_bound h.bound then true else h.wiped; state = none }
    else record h { dir = false; state = none }

module _ (k : Kernel) where
  -- What a call that does not fail does.
  unfoldable pub effect : HostCall → Host → Host
  effect (mkdir path) h = record h { dir = true }
  effect (mount_overlay lower) h = record h { mounted = true; root_writable = true }
  effect remount_readonly h = record h { root_writable = false }
  effect (bind_workspace w) h = record h { bound = some w }
  effect make_cgroup h = record h { cgroup = true }
  effect start_process h = record h { process = some (k.pid h.calls) }
  effect (write_state s) h = record h { state = some s }
  effect signal_process h = if k.ignores_signal h.calls then h else record h { process = none }
  effect kill_process h = record h { process = none }
  effect remove_cgroup h = record h { cgroup = false }
  effect unmount h = record h { mounted = false; bound = none }
  effect remove_dir h = removed_dir h
  effect (enter_and_bind w) h = record h { bound = some w }
  effect (bind_from_host w) h = record h { bound = some w }
  effect (remount_inside writable) h = record h { root_writable = writable }
  effect _ h = h

  -- A call is noted, and has its effect if it does not fail.
  abbrev pub noted : HostCall → Host → Host
  noted c h = record h { calls = c ∷ h.calls }

  unfoldable pub attempt : HostCall → Host → Host
  unfolding effect
  attempt c h = if k.fails (c ∷ h.calls) then noted c h else effect c (noted c h)

-- An operation returns a value, or the call that failed.
pub data Outcome (A : Type 0) : Type 0 where
  done : A → Outcome A
  failed : HostCall → Outcome A

abbrev pub Operation : Type 0 → Type 0
Operation A = Host → Outcome A × Host

module _ {A : Type 0} where
  unfoldable pub give : A → Operation A
  give a h = (done a, h)

  unfoldable pub refuse : HostCall → Operation A
  refuse c h = (failed c, h)

module _ {A B : Type 0} where
  abbrev pub go_on : Outcome A → (A → Operation B) → Operation B
  go_on (done a) f h = f a h
  go_on (failed c) f h = (failed c, h)

  infixl 5 ◌>>=◌ ◌>>◌
  unfoldable pub ◌>>=◌ : Operation A → (A → Operation B) → Operation B
  ◌>>=◌ m f h = let (r, h') = m h in go_on r f h'

  abbrev pub ◌>>◌ : Operation A → Operation B → Operation B
  m >> n = m >>= λ _. n

module _ (k : Kernel) where
  unfoldable pub perform : HostCall → Operation (Unit {0})
  unfolding effect
  perform c h =
      if k.fails (c ∷ h.calls) then (failed c, noted k c h) else (done tt, effect k c (noted k c h))

  -- Calls whose errors are dropped.
  unfoldable pub attempt_all : List HostCall → Host → Host
  unfolding attempt
  attempt_all [] h = h
  attempt_all (c ∷ cs) h = attempt_all cs (attempt k c h)

  -- `if err := …; err != nil { cleanup; return err }`
  abbrev pub settle : {A : Type 0} → List HostCall → Outcome A × Host → Outcome A × Host
  settle cleanup (done a, h) = (done a, h)
  settle cleanup (failed c, h) = (failed c, attempt_all cleanup h)

  unfoldable pub or_else : {A : Type 0} → List HostCall → Operation A → Operation A
  or_else cleanup m h = settle cleanup (m h)
