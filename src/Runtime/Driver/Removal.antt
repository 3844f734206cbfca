-- ===== src/Runtime/Driver/Removal.antt =====
-- What Destroy frees, and what a failure of SetupFilesystem does to a workspace.
use sandkasten.Base.{
  ◌≡◌, refl, sym, subst, ◌∙◌, Bool, true, false, ◌∷◌, [], List, Option, none, some, if◌then◌else◌,
  Bool-cases, inl, inr,
}
use sandkasten.Base.Int.{ℤ, pos, ltb_ℤ}
use sandkasten.Base.Text.{Bytes, str_eq}
use sandkasten.Runtime.Host.{
  SessionState, HostCall, mount_tmpfs, kill_process, signal_process, kill_cgroup, remove_cgroup,
  unmount, remove_dir, Host, Kernel, perform, attempt_all, attempt, effect, or_else, ◌>>=◌,
}
use sandkasten.Runtime.Driver.{
  Setup, when, setup_filesystem, build, destroy, destroy_stored, tear_down, stop_process,
  is_running,
}
use sandkasten.Runtime.Driver.Undo.{Cleans, IsClean}

module _ (k : Kernel) (c : Cleans k) where
  killed :
      (h : Host)
      → ((attempt_all k (kill_process ∷ []) h).process ≡ none)
        × ((attempt_all k (kill_process ∷ []) h).wiped ≡ h.wiped)
  unfolding attempt_all attempt effect
  killed h = rw (c.kills) (refl, refl)

  signalled : (h : Host) → (attempt_all k (signal_process ∷ []) h).wiped ≡ h.wiped
  unfolding attempt_all attempt effect
  signalled h = elim (Bool-cases (k.fails (signal_process ∷ h.calls))) [
    | inl f ↦ rw f refl
    | inr f ↦ rw f (elim (Bool-cases (k.ignores_signal (signal_process ∷ h.calls))) [
      | inl g ↦ rw g refl
      | inr g ↦ rw g refl
    ])
  ]

  ended :
      (h : Host) (o : Option ℤ)
      → h.process ≡ o
      → ((if is_running h.process then attempt_all k (kill_process ∷ []) h else h).process ≡ none)
        × ((if is_running h.process then attempt_all k (kill_process ∷ []) h else h).wiped
            ≡ h.wiped)
  ended h none e = let i : is_running h.process ≡ false = rw e refl in rw i (e, refl)
  ended h (some pid) e = let i : is_running h.process ≡ true = rw e refl in rw i (killed h)

  stopped :
      (state : SessionState) (h : Host)
      → ltb_ℤ (pos 0) state.init_pid ≡ true
      → ((stop_process k state h).process ≡ none) × ((stop_process k state h).wiped ≡ h.wiped)
  unfolding stop_process
  stopped state h e =
      let g = attempt_all k (signal_process ∷ []) h in
      let (gone, same) = ended g g.process refl in rw e (gone, same ∙ signalled h)

  -- What is left once the process is gone: the cgroup, the mounts and the directory.
  freed :
      (h : Host)
      → h.process ≡ none
      → IsClean h.wiped (
          attempt_all k
            (remove_dir ∷ [])
            (attempt_all k (unmount ∷ []) (attempt_all k (kill_cgroup ∷ remove_cgroup ∷ []) h)))
  unfolding attempt_all attempt effect
  freed h p = elim (Bool-cases (k.fails (kill_cgroup ∷ h.calls))) [
    | inl f ↦
        rw (f, c.removes_cgroup, c.unmounts, c.removes_dir)
          (record {
            no_dir = refl;
            no_mount = refl;
            no_bind = refl;
            no_cgroup = refl;
            no_process = p;
            same_wiped = refl;
          })
    | inr f ↦
        rw (f, c.removes_cgroup, c.unmounts, c.removes_dir)
          (record {
            no_dir = refl;
            no_mount = refl;
            no_bind = refl;
            no_cgroup = refl;
            no_process = p;
            same_wiped = refl;
          })
  ]

  torn :
      (state : SessionState) (h : Host)
      → ltb_ℤ (pos 0) state.init_pid ≡ true
      → str_eq state.cgroup_path [] ≡ false
      → str_eq state.mnt [] ≡ false
      → IsClean h.wiped (tear_down k state h)
  unfolding tear_down
  torn state h pid cg mnt =
      let g = stop_process k state h in
      let (gone, same) = stopped state h pid in
      rw (cg, mnt)
        (subst
          (λ (b : Bool). IsClean b (
            attempt_all k (remove_dir ∷ [])
              (attempt_all k (unmount ∷ []) (attempt_all k (kill_cgroup ∷ remove_cgroup ∷ []) g))))
          same (freed g gone))

  -- Destroy frees the directory, the mounts, the cgroup and the process of a session whose state.json
  -- names them, however its process answers to SIGTERM, and empties no workspace.
  pub destroy-IsClean :
      (state : SessionState) (h : Host)
      → h.state ≡ some state
      → ltb_ℤ (pos 0) state.init_pid ≡ true
      → str_eq state.cgroup_path [] ≡ false
      → str_eq state.mnt [] ≡ false
      → IsClean h.wiped (destroy k h)
  unfolding destroy destroy_stored
  destroy-IsClean state h e pid cg mnt =
      subst (λ (o : Option SessionState). IsClean h.wiped (destroy_stored k o h)) (sym e)
        (torn state h pid cg mnt)

-- The kernel refuses the mounts of tmpfs, and nothing else.
abbrev pub is_tmpfs : HostCall → Bool
is_tmpfs (mount_tmpfs p) = true
is_tmpfs c = false

-- Where the mount of a tmpfs fails after a workspace was bound, Create removes the session's directory
-- with the root file system still mounted, and so deletes the files of the workspace.
pub build-wiped :
    (k : Kernel) (s : Setup) (id lower src : Bytes) (h : Host)
    → ((call : HostCall) (l : List HostCall) → k.fails (call ∷ l) ≡ is_tmpfs call)
    → str_eq src [] ≡ false
    → (build k s id lower src h).1.wiped ≡ true
unfolding build setup_filesystem or_else ◌>>=◌ perform when attempt_all attempt effect
build-wiped k s id lower src h f e = simp (f, e) refl
