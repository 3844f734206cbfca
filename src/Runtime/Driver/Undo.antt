-- ===== src/Runtime/Driver/Undo.antt =====
-- What Create leaves on the host where it fails.
use sandkasten.Base.{◌≡◌, refl, Bool, false, ◌∷◌, [], List, none, Bool-cases, inl, inr}
use sandkasten.Runtime.Host.{
  HostCall, kill_process, remove_cgroup, unmount, remove_dir, remove_log, Host, Kernel, attempt_all,
  attempt, effect, noted,
}
use sandkasten.Runtime.Driver.{on_mounts, on_cgroup, on_process}

-- The calls that clean up do not fail: a process can be killed, and an empty cgroup, a mount that is
-- detached lazily and a directory without mounts can be removed.
pub record Cleans (k : Kernel) : Type 0 where
  pub kills : (l : List HostCall) → k.fails (kill_process ∷ l) ≡ false
  pub removes_cgroup : (l : List HostCall) → k.fails (remove_cgroup ∷ l) ≡ false
  pub unmounts : (l : List HostCall) → k.fails (unmount ∷ l) ≡ false
  pub removes_dir : (l : List HostCall) → k.fails (remove_dir ∷ l) ≡ false

-- Nothing of the session is left on the host, and no workspace was emptied since `wiped` held.
pub record IsClean (wiped : Bool) (h : Host) : Type 0 where
  pub no_dir : h.dir ≡ false
  pub no_mount : h.mounted ≡ false
  pub no_bind : h.bound ≡ none
  pub no_cgroup : h.cgroup ≡ false
  pub no_process : h.process ≡ none
  pub same_wiped : h.wiped ≡ wiped

module _ (k : Kernel) (c : Cleans k) (b : Bool) where
  pub undo_mounts :
      (h : Host)
      → h.process ≡ none
      → h.cgroup ≡ false
      → h.wiped ≡ b
      → IsClean b (attempt_all k on_mounts h)
  unfolding attempt_all attempt effect
  undo_mounts h p g w =
      rw (c.unmounts, c.removes_dir)
        (record {
          no_dir = refl;
          no_mount = refl;
          no_bind = refl;
          no_cgroup = g;
          no_process = p;
          same_wiped = w;
        })

  pub undo_but_cgroup :
      (h : Host)
      → h.process ≡ none
      → h.wiped ≡ b
      → IsClean b (record (attempt_all k on_mounts h) { cgroup = false })
  unfolding attempt_all attempt effect
  undo_but_cgroup h p w =
      rw (c.unmounts, c.removes_dir)
        (record {
          no_dir = refl;
          no_mount = refl;
          no_bind = refl;
          no_cgroup = refl;
          no_process = p;
          same_wiped = w;
        })

  pub dir_removed :
      (h : Host)
      → ((attempt_all k (remove_dir ∷ []) h).process ≡ h.process)
        × ((attempt_all k (remove_dir ∷ []) h).cgroup ≡ h.cgroup)
  unfolding attempt_all attempt effect
  dir_removed h =
      rw (c.removes_dir)
        (elim (Bool-cases h.mounted) [ inl e ↦ rw e (refl, refl) | inr e ↦ rw e (refl, refl) ])

  pub undo_cgroup :
      (h : Host) → h.process ≡ none → h.wiped ≡ b → IsClean b (attempt_all k on_cgroup h)
  unfolding attempt_all attempt effect
  undo_cgroup h p w = rw (c.removes_cgroup) (undo_mounts _ p refl w)

  pub undo_process : (h : Host) → h.wiped ≡ b → IsClean b (attempt_all k on_process h)
  unfolding attempt_all attempt effect
  undo_process h w = rw (c.kills) (undo_cgroup _ refl w)

  pub undo_process_log :
      (h : Host) → h.wiped ≡ b → IsClean b (attempt_all k (remove_log ∷ on_process) h)
  unfolding attempt_all attempt effect
  undo_process_log h w = elim (Bool-cases (k.fails (remove_log ∷ h.calls))) [
    | inl e ↦ rw e (undo_process (noted k remove_log h) w)
    | inr e ↦ rw e (undo_process (noted k remove_log h) w)
  ]

  pub undo_cgroup_log :
      (h : Host)
      → h.process ≡ none
      → h.wiped ≡ b
      → IsClean b (attempt_all k (remove_log ∷ on_cgroup) h)
  unfolding attempt_all attempt effect
  undo_cgroup_log h p w = elim (Bool-cases (k.fails (remove_log ∷ h.calls))) [
    | inl e ↦ rw e (undo_cgroup (noted k remove_log h) p w)
    | inr e ↦ rw e (undo_cgroup (noted k remove_log h) p w)
  ]
