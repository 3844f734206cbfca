-- ===== src/Runtime/Workspace.antt =====
-- internal/runtime/linux/driver.go: MountWorkspace, which binds a workspace into a running sandbox.
use sandkasten.Base.{
  ◌≡◌, refl, ◌∙◌, Bool, true, false, ◌&&◌, not, Option, none, some, List, [], ◌∷◌, Bool-cases, ◌⊎◌,
  inl, inr, if◌then◌else◌,
}
use sandkasten.Base.Int.{pos, ltb_ℤ}
use sandkasten.Base.Text.{Bytes, codes, str_eq}
use sandkasten.Base.Path.{join}
use sandkasten.Runtime.Host.{
  SessionState, HostCall, stat, chown_workspace, read_state, enter_and_bind, bind_from_host,
  remount_inside, Host, Kernel, Outcome, done, failed, Operation, refuse, perform, effect, noted,
  ◌>>=◌, ◌>>◌,
}
use sandkasten.Runtime.Driver.{Setup}

-- The next way, where one has failed.
abbrev next_way : Operation (Unit {0}) → Outcome (Unit {0}) × Host → Outcome (Unit {0}) × Host
next_way n (done u, h) = (done u, h)
next_way n (failed c, h) = n h

abbrev otherwise : Operation (Unit {0}) → Operation (Unit {0}) → Operation (Unit {0})
otherwise m n h = next_way n (m h)

-- state.json could be read, and names a process and a root file system.
abbrev is_usable : Option SessionState → Bool
is_usable none = false
is_usable (some state) = ltb_ℤ (pos 0) state.init_pid && not (str_eq state.mnt [])

abbrev pub workspace_dir : Setup → Bytes → Bytes
workspace_dir s id = join (join s.data_dir (codes "workspaces")) id

module _ (k : Kernel) (s : Setup) where
  -- The root file system is made writable for the mount, and read-only again.
  bind_unsealed : Bytes → Operation (Unit {0})
  bind_unsealed src = do
    perform k (remount_inside true)
    perform k (enter_and_bind src)
    perform k (remount_inside false)

  -- The three ways to mount.
  mount_into : Bytes → Operation (Unit {0})
  mount_into src = otherwise (perform k (enter_and_bind src)) (
      otherwise (perform k (bind_from_host src))
        (if s.readonly_rootfs then bind_unsealed src else refuse (bind_from_host src)))

  -- MountWorkspace, for what the session's state.json holds.
  pub mount_workspace : Option SessionState → Bytes → Operation (Unit {0})
  mount_workspace state id =
      if is_usable state
      then (do
        perform k (stat (workspace_dir s id))
        perform k (chown_workspace (workspace_dir s id))
        mount_into (workspace_dir s id))
      else refuse read_state

-- Nothing but the bound workspace, and whether the root can be written, has changed.
pub record SameBut (g h : Host) : Type 0 where
  pub same_dir : h.dir ≡ g.dir
  pub same_mounted : h.mounted ≡ g.mounted
  pub same_wiped : h.wiped ≡ g.wiped
  pub same_cgroup : h.cgroup ≡ g.cgroup
  pub same_process : h.process ≡ g.process
  pub same_state : h.state ≡ g.state

-- The root can be written as before, or not at all.
abbrev pub IsSealed : Host → Host → Type 0
IsSealed g h = (h.root_writable ≡ g.root_writable) ⊎ (h.root_writable ≡ false)

-- The workspace is bound, there is no error, and the root has not become writable; or there is an error,
-- and what was bound and the root are unchanged; or, behind a remount, the bind failed or the last
-- remount did, and the root is left writable.
pub data MountEnds (src : Bytes) (h : Host) (r : Outcome (Unit {0}) × Host) : Type 0 where
  bound : r.0 ≡ done tt → r.1.bound ≡ some src → IsSealed h r.1 → SameBut h r.1 → MountEnds src h r
  unbound :
      (c : HostCall)
      → r.0 ≡ failed c
      → r.1.bound ≡ h.bound
      → r.1.root_writable ≡ h.root_writable
      → SameBut h r.1
      → MountEnds src h r
  left_writable :
      r.0 ≡ failed (enter_and_bind src)
      → r.1.bound ≡ h.bound
      → r.1.root_writable ≡ true
      → SameBut h r.1
      → MountEnds src h r
  unsealed :
      r.0 ≡ failed (remount_inside false)
      → r.1.bound ≡ some src
      → r.1.root_writable ≡ true
      → SameBut h r.1
      → MountEnds src h r

abbrev Ends : Bytes → Operation (Unit {0}) → Type 0
Ends src m = (h : Host) → MountEnds src h (m h)

SameBut-trans : (g h i : Host) → SameBut g h → SameBut h i → SameBut g i
SameBut-trans g h i a b = record {
  same_dir = b.same_dir ∙ a.same_dir;
  same_mounted = b.same_mounted ∙ a.same_mounted;
  same_wiped = b.same_wiped ∙ a.same_wiped;
  same_cgroup = b.same_cgroup ∙ a.same_cgroup;
  same_process = b.same_process ∙ a.same_process;
  same_state = b.same_state ∙ a.same_state;
}

touched :
    (h : Host) (b : Option Bytes) (writable : Bool) (calls : List HostCall)
    → SameBut h (record h { bound = b; root_writable = writable; calls = calls })
touched h b writable calls = record {
  same_dir = refl;
  same_mounted = refl;
  same_wiped = refl;
  same_cgroup = refl;
  same_process = refl;
  same_state = refl;
}

module _ (k : Kernel) (src : Bytes) where
  noted-SameBut : (c : HostCall) (h : Host) → SameBut h (noted k c h)
  noted-SameBut c h = touched h h.bound h.root_writable (c ∷ h.calls)

  refuse-Ends : (c : HostCall) → Ends src (refuse c)
  unfolding refuse
  refuse-Ends c h = unbound c refl refl refl (touched h h.bound h.root_writable h.calls)

  from_noted :
      (c : HostCall) (h : Host) (r : Outcome (Unit {0}) × Host)
      → MountEnds src (noted k c h) r
      → MountEnds src h r
  from_noted c h r (bound q b w s) =
      bound q b w (SameBut-trans h (noted k c h) r.1 (noted-SameBut c h) s)
  from_noted c h r (unbound c' q b w s) =
      unbound c' q b w (SameBut-trans h (noted k c h) r.1 (noted-SameBut c h) s)
  from_noted c h r (left_writable q b w s) =
      left_writable q b w (SameBut-trans h (noted k c h) r.1 (noted-SameBut c h) s)
  from_noted c h r (unsealed q b w s) =
      unsealed q b w (SameBut-trans h (noted k c h) r.1 (noted-SameBut c h) s)

  -- A call that binds, with another way behind it.
  otherwise-Ends :
      (c : HostCall) (n : Operation (Unit {0}))
      → ((h : Host) → effect k c h ≡ record h { bound = some src })
      → Ends src n
      → Ends src (otherwise (perform k c) n)
  unfolding perform
  otherwise-Ends c n e a h = elim (Bool-cases (k.fails (c ∷ h.calls))) [
    | inl f ↦ rw f (from_noted c h (n (noted k c h)) (a (noted k c h)))
    | inr f ↦ rw f (
        rw (e (noted k c h))
          (bound refl refl (inl refl) (touched h (some src) h.root_writable (c ∷ h.calls))))
  ]

  -- A call before that changes nothing.
  behind :
      (c : HostCall) (m : Operation (Unit {0}))
      → ((h : Host) → effect k c h ≡ h)
      → Ends src m
      → Ends src (perform k c >> m)
  unfolding ◌>>=◌ perform
  behind c m e a h = elim (Bool-cases (k.fails (c ∷ h.calls))) [
    | inl f ↦ rw f (unbound c refl refl refl (noted-SameBut c h))
    | inr f ↦ rw f (rw (e (noted k c h)) (from_noted c h (m (noted k c h)) (a (noted k c h))))
  ]

module _ (k : Kernel) (s : Setup) where
  -- The remount, the mount, and the remount behind it.
  bind_unsealed-Ends : (src : Bytes) → Ends src (bind_unsealed k s src)
  unfolding bind_unsealed ◌>>=◌ perform effect
  bind_unsealed-Ends src h =
      let unseal : List HostCall = remount_inside true ∷ h.calls in
      let bind : List HostCall = enter_and_bind src ∷ unseal in
      let seal : List HostCall = remount_inside false ∷ bind in
      elim (Bool-cases (k.fails unseal)) [
        | inl f ↦ rw f (unbound (remount_inside true) refl refl refl (noted-SameBut k src _ h))
        | inr f ↦ elim (Bool-cases (k.fails bind)) [
          | inl f' ↦ rw (f, f') (left_writable refl refl refl (touched h h.bound true bind))
          | inr f' ↦ elim (Bool-cases (k.fails seal)) [
            | inl f'' ↦ rw (f, f', f'') (unsealed refl refl refl (touched h (some src) true seal))
            | inr f'' ↦
                rw (f, f', f'') (bound refl refl (inr refl) (touched h (some src) false seal))
          ]
        ]
      ]

  mount_into-Ends : (src : Bytes) → Ends src (mount_into k s src)
  unfolding mount_into effect bind_unsealed
  mount_into-Ends src =
      otherwise-Ends k src (enter_and_bind src) _ (λ h. refl)
        (otherwise-Ends k src (bind_from_host src) _ (λ h. refl)
          (elim (Bool-cases s.readonly_rootfs) [
            | inl e ↦ rw e (bind_unsealed-Ends src)
            | inr e ↦ rw e (refuse-Ends k src (bind_from_host src))
          ]))

  -- MountWorkspace binds the workspace's own directory and reports success, and the root file system has
  -- not become writable; or it reports an error, and what was bound before still is and the root is as
  -- writable as before; or the error is that of the bind behind a remount, nothing new is bound and the
  -- root is left writable; or it is that of the last remount, the workspace is bound and the root is left
  -- writable. In every case the process, the cgroup, that the root is mounted, the session's directory
  -- and state.json stay as they are, and no workspace is emptied.
  pub mount_workspace-MountEnds :
      (state : Option SessionState) (id : Bytes) (h : Host)
      → MountEnds (workspace_dir s id) h (mount_workspace k s state id h)
  unfolding mount_workspace effect
  mount_workspace-MountEnds state id h =
      let src = workspace_dir s id in
      elim (Bool-cases (is_usable state)) [
        | inl e ↦ rw e (
            behind k src (stat src) _ (λ g. refl)
              (behind k src (chown_workspace src) _ (λ g. refl) (mount_into-Ends src)) h)
        | inr e ↦ rw e (refuse-Ends k src read_state h)
      ]
