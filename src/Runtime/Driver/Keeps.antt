-- ===== src/Runtime/Driver/Keeps.antt =====
-- What the steps of Create leave alone.
use sandkasten.Base.{◌≡◌, refl, ◌∙◌, Bool, true, false, ◌∷◌, Bool-cases, inl, inr, ◌⊎◌}
use sandkasten.Base.Int.{ℤ}
use sandkasten.Base.Text.{Bytes}
use sandkasten.Runtime.Host.{
  HostCall, stat, make_workspace, chown_workspace, mkdir, chown, chmod, mount_overlay,
  bind_workspace, mount_tmpfs, copy_host_file, bind_host_file, setup_minimal_dev,
  ensure_resolv_conf, remount_readonly, make_parent_cgroup, make_cgroup, write_limit, write_cpu_max,
  Host, Kernel, Operation, perform, attempt_all, attempt, effect, noted,
}
use sandkasten.Runtime.Host.Stages.{
  HostRelation, Keeps, keeps, kept, Keeps-bind, Keeps-give, Keeps-perform, IsKeptBy,
}
use sandkasten.Runtime.Driver.{
  Setup, when, set_limit, drop_error, setup_filesystem, create_cgroup, prepare_root,
  make_workspace_dir,
}

-- No process is started or ended, and no workspace is emptied.
pub record SameProcess (g h : Host) : Type 0 where
  pub process_kept : h.process ≡ g.process
  pub wiped_kept : h.wiped ≡ g.wiped

-- The cgroup is left alone too.
pub record SameCgroup (g h : Host) : Type 0 where
  pub process_kept : h.process ≡ g.process
  pub wiped_kept : h.wiped ≡ g.wiped
  pub cgroup_kept : h.cgroup ≡ g.cgroup

abbrev pub same_process : HostRelation
same_process = record {
  rel = SameProcess;
  rel_refl = λ h. record { process_kept = refl; wiped_kept = refl };
  rel_trans = λ g h i a b. record {
    process_kept = b.process_kept ∙ a.process_kept;
    wiped_kept = b.wiped_kept ∙ a.wiped_kept;
  };
}

abbrev pub same_cgroup : HostRelation
same_cgroup = record {
  rel = SameCgroup;
  rel_refl = λ h. record { process_kept = refl; wiped_kept = refl; cgroup_kept = refl };
  rel_trans = λ g h i a b. record {
    process_kept = b.process_kept ∙ a.process_kept;
    wiped_kept = b.wiped_kept ∙ a.wiped_kept;
    cgroup_kept = b.cgroup_kept ∙ a.cgroup_kept;
  };
}

pub Keeps-when :
    {r : HostRelation} (b : Bool) (m : Operation (Unit {0})) → Keeps r m → Keeps r (when b m)
unfolding when
Keeps-when true m k = k
Keeps-when false m k = Keeps-give tt

-- The calls on files and mounts that Create makes.
abbrev is_quiet : HostCall → Bool
is_quiet (stat p) = true
is_quiet (make_workspace p) = true
is_quiet (chown_workspace p) = true
is_quiet (mkdir p) = true
is_quiet (chown p) = true
is_quiet (chmod p) = true
is_quiet (mount_overlay p) = true
is_quiet (bind_workspace p) = true
is_quiet (mount_tmpfs p) = true
is_quiet (copy_host_file p) = true
is_quiet (bind_host_file p) = true
is_quiet setup_minimal_dev = true
is_quiet ensure_resolv_conf = true
is_quiet remount_readonly = true
is_quiet make_parent_cgroup = true
is_quiet c = false

module _ (k : Kernel) where
  -- The calls on files and mounts.
  quiet : (c : HostCall) → ((h : Host) → SameCgroup h (effect k c h)) → IsKeptBy same_cgroup k c
  quiet c e h = (
    record { process_kept = refl; wiped_kept = refl; cgroup_kept = refl },
    let q = e (noted k c h) in
        record {
          process_kept = q.process_kept;
          wiped_kept = q.wiped_kept;
          cgroup_kept = q.cgroup_kept;
        },
  )

  abbrev unchanged :
      (h h' : Host)
      → h'.process ≡ h.process
      → h'.wiped ≡ h.wiped
      → h'.cgroup ≡ h.cgroup
      → SameCgroup h h'
  unchanged h h' a b c = record { process_kept = a; wiped_kept = b; cgroup_kept = c }

  quiet_call : (c : HostCall) → is_quiet c ≡ true → Keeps same_cgroup (perform k c)
  unfolding effect
  quiet_call (stat p) h = Keeps-perform k _ (quiet _ (λ h. unchanged h _ refl refl refl))
  quiet_call (make_workspace p) h = Keeps-perform k _ (quiet _ (λ h. unchanged h _ refl refl refl))
  quiet_call (chown_workspace p) h = Keeps-perform k _ (quiet _ (λ h. unchanged h _ refl refl refl))
  quiet_call (mkdir p) h = Keeps-perform k _ (quiet _ (λ h. unchanged h _ refl refl refl))
  quiet_call (chown p) h = Keeps-perform k _ (quiet _ (λ h. unchanged h _ refl refl refl))
  quiet_call (chmod p) h = Keeps-perform k _ (quiet _ (λ h. unchanged h _ refl refl refl))
  quiet_call (mount_overlay p) h = Keeps-perform k _ (quiet _ (λ h. unchanged h _ refl refl refl))
  quiet_call (bind_workspace p) h = Keeps-perform k _ (quiet _ (λ h. unchanged h _ refl refl refl))
  quiet_call (mount_tmpfs p) h = Keeps-perform k _ (quiet _ (λ h. unchanged h _ refl refl refl))
  quiet_call (copy_host_file p) h = Keeps-perform k _ (quiet _ (λ h. unchanged h _ refl refl refl))
  quiet_call (bind_host_file p) h = Keeps-perform k _ (quiet _ (λ h. unchanged h _ refl refl refl))
  quiet_call setup_minimal_dev h = Keeps-perform k _ (quiet _ (λ h. unchanged h _ refl refl refl))
  quiet_call ensure_resolv_conf h = Keeps-perform k _ (quiet _ (λ h. unchanged h _ refl refl refl))
  quiet_call remount_readonly h = Keeps-perform k _ (quiet _ (λ h. unchanged h _ refl refl refl))
  quiet_call make_parent_cgroup h = Keeps-perform k _ (quiet _ (λ h. unchanged h _ refl refl refl))
  quiet_call (write_limit p n) h = cc
  quiet_call c h = cc

  pub Keeps-setup_filesystem :
      (dir lower src : Bytes) → Keeps same_cgroup (setup_filesystem k dir lower src)
  unfolding setup_filesystem
  Keeps-setup_filesystem dir lower src = search (Keeps-bind, Keeps-when, quiet_call, refl) depth 40

  pub Keeps-workspace : (src : Bytes) (s : Setup) → Keeps same_cgroup (make_workspace_dir k s src)
  unfolding make_workspace_dir
  Keeps-workspace src s = search (Keeps-bind, quiet_call, refl) depth 10

  pub Keeps-when_stat : (b : Bool) (p : Bytes) → Keeps same_cgroup (when b (perform k (stat p)))
  Keeps-when_stat b p = Keeps-when b _ (quiet_call (stat p) refl)

  pub Keeps-when_workspace :
      (b : Bool) (src : Bytes) (s : Setup) → Keeps same_cgroup (when b (make_workspace_dir k s src))
  Keeps-when_workspace b src s = Keeps-when b _ (Keeps-workspace src s)

  pub Keeps-prepare_root : (s : Setup) (mnt : Bytes) → Keeps same_cgroup (prepare_root k s mnt)
  unfolding prepare_root
  Keeps-prepare_root s mnt = search (Keeps-bind, Keeps-when, quiet_call, refl) depth 40

  -- The calls on the cgroup.
  calm : (c : HostCall) → ((h : Host) → SameProcess h (effect k c h)) → IsKeptBy same_process k c
  calm c e h = (
    record { process_kept = refl; wiped_kept = refl },
    let q = e (noted k c h) in record { process_kept = q.process_kept; wiped_kept = q.wiped_kept },
  )

  parent-calm : IsKeptBy same_process k make_parent_cgroup
  unfolding effect
  parent-calm = calm _ (λ h. record { process_kept = refl; wiped_kept = refl })

  group-calm : IsKeptBy same_process k make_cgroup
  unfolding effect
  group-calm = calm _ (λ h. record { process_kept = refl; wiped_kept = refl })

  cpu-calm : IsKeptBy same_process k write_cpu_max
  unfolding effect
  cpu-calm = calm _ (λ h. record { process_kept = refl; wiped_kept = refl })

  limit_call : (p : Bytes) (n : ℤ) → IsKeptBy same_process k (write_limit p n)
  unfolding effect
  limit_call p n = calm _ (λ h. record { process_kept = refl; wiped_kept = refl })

  Keeps-set_limit : (c : HostCall) → IsKeptBy same_process k c → Keeps same_process (set_limit k c)
  unfolding set_limit
  Keeps-set_limit c e = keeps λ h. by_permission h (Bool-cases (k.is_permission (c ∷ h.calls)))
    where
      by_permission :
          (h : Host)
          → (k.is_permission (c ∷ h.calls) ≡ true) ⊎ (k.is_permission (c ∷ h.calls) ≡ false)
          → SameProcess h (set_limit k c h).1
      by_permission h (inl b) = rw b ((e h).0)
      by_permission h (inr b) = rw b (kept (perform k c) (Keeps-perform {r = same_process} k c e) h)

  Keeps-drop_error :
      (c : HostCall) → IsKeptBy same_process k c → Keeps same_process (drop_error k c)
  unfolding drop_error attempt_all attempt
  Keeps-drop_error c e = keeps λ h. by_failure h (Bool-cases (k.fails (c ∷ h.calls)))
    where
      by_failure :
          (h : Host)
          → (k.fails (c ∷ h.calls) ≡ true) ⊎ (k.fails (c ∷ h.calls) ≡ false)
          → SameProcess h (drop_error k c h).1
      by_failure h (inl b) = rw b ((e h).0)
      by_failure h (inr b) = rw b ((e h).1)

  pub Keeps-create_cgroup : (s : Setup) → Keeps same_process (create_cgroup k s)
  unfolding create_cgroup
  Keeps-create_cgroup s =
      search
        (
          Keeps-bind,
          Keeps-when,
          Keeps-perform {r = same_process} k make_parent_cgroup parent-calm,
          Keeps-perform {r = same_process} k make_cgroup group-calm,
          Keeps-set_limit,
          Keeps-drop_error,
          limit_call,
          cpu-calm,
        )
        depth 40
