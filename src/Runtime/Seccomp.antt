-- ===== src/Runtime/Seccomp.antt =====
-- internal/runtime/linux/nsinit.go: the filter of system calls that installSeccompFilter builds. The
-- numbers and the constants of the package unix are an argument.
pub mod Filter
use sandkasten.Base.{
  ℕ, zero, suc, ◌*◌, ◌+◌, ◌%◌, ◌^◌, Bool, true, false, not, Option, none, some, List, [], ◌∷◌, ◌++◌,
  map, length, take, ltb, if◌then◌else◌,
}
use sandkasten.Base.Int.{ℤ, pos, ltb_ℤ}
use sandkasten.Base.Text.{Bytes, codes, str_eq}
use sandkasten.Base.Path.{join}

pub data Syscall : Type 0 where
  bpf userfaultfd perf_event_open ptrace kexec_load open_by_handle_at : Syscall
  keyctl add_key request_key init_module finit_module delete_module : Syscall
  mount umount2 pivot_root setns unshare : Syscall

-- What the source uses of the package unix: the numbers of the system calls, the codes of the three
-- instructions (BPF_LD | BPF_W | BPF_ABS, BPF_JMP | BPF_JEQ | BPF_K, BPF_RET | BPF_K), and the two answers
-- (SECCOMP_RET_ERRNO | EPERM, SECCOMP_RET_ALLOW).
pub record Unix : Type 0 where
  pub number : Syscall → ℕ
  pub load_word : ℕ
  pub jump_equal : ℕ
  pub return_value : ℕ
  pub deny_eperm : ℕ
  pub allow : ℕ

-- unix.SockFilter
pub record SockFilter : Type 0 where
  pub code : ℕ
  pub jt : ℕ
  pub jf : ℕ
  pub k : ℕ

-- The names that installSeccompFilter denies.
abbrev pub denied : Bool → List Syscall
denied strict =
    let base : List Syscall =
      bpf ∷ userfaultfd ∷ perf_event_open ∷ ptrace ∷ kexec_load ∷ open_by_handle_at ∷ keyctl
      ∷ add_key ∷ request_key ∷ init_module ∷ finit_module ∷ delete_module ∷ mount ∷ umount2
      ∷ pivot_root ∷ [] in
    if strict then base ++ setns ∷ unshare ∷ [] else base

module _ (u : Unix) where
  -- deny, as uint32.
  abbrev pub deny : Bool → List ℕ
  deny strict = map (λ s. u.number s % 2 ^ 32) (denied strict)

  -- The loop over deny, and the instruction behind it.
  unfoldable pub deny_each : List ℕ → List SockFilter
  deny_each [] = record { code = u.return_value; jt = 0; jf = 0; k = u.allow } ∷ []
  deny_each (nr ∷ nrs) =
      record { code = u.jump_equal; jt = 0; jf = 1; k = nr }
      ∷ record { code = u.return_value; jt = 0; jf = 0; k = u.deny_eperm }
      ∷ deny_each nrs

  unfoldable pub seccomp_filter : Bool → List SockFilter
  unfolding deny_each
  seccomp_filter strict =
      record { code = u.load_word; jt = 0; jf = 0; k = 0 } ∷ deny_each (deny strict)
