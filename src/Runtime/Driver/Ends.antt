-- ===== src/Runtime/Driver/Ends.antt =====
-- How Create ends: with a running sandbox, or with nothing left of it but what is named here.
use sandkasten.Base.{◌≡◌, refl, ◌∙◌, Bool, false, ◌∷◌, List, none, some, Bool-cases, inl, inr}
use sandkasten.Base.Int.{ℤ}
use sandkasten.Base.Text.{Bytes}
use sandkasten.World.{CreateOpts}
use sandkasten.Runtime.Host.{
  SessionState, HostCall, stat, make_workspace, chown_workspace, remove_log, open_log,
  start_process, attach_process, wait_socket, write_state, Host, Kernel, Outcome, done, failed,
  give, perform, attempt_all, attempt, effect, noted, or_else, ◌>>=◌,
}
use sandkasten.Runtime.Host.Stages.{
  HostRelation, Keeps, IsKeptBy, Keeps-bind, Keeps-perform, stage, stage_or_else, kept,
}
use sandkasten.Runtime.Driver.{
  Setup, when, drop_error, setup_filesystem, create_cgroup, prepare_root, launch, build, create,
  start, store_state, store_found, watch, on_cgroup, make_workspace_dir,
}
use sandkasten.Runtime.Driver.Keeps.{
  Keeps-when, Keeps-setup_filesystem, Keeps-create_cgroup, Keeps-prepare_root,
}
use sandkasten.Runtime.Driver.Undo.{
  Cleans, IsClean, undo_mounts, undo_but_cgroup, dir_removed, undo_cgroup, undo_process,
  undo_process_log, undo_cgroup_log,
}

-- The ends of Create: the sandbox runs, its process and state.json are the ones that are returned; or a
-- call failed and nothing of the session is left; or that call was one of SetupFilesystem, and then
-- there is no process and no cgroup; or it was one of CreateCgroup, and then only the cgroup may be
-- left.
pub data CreateEnds (k : Kernel) (s : Setup) (b : Bool) (r : Outcome SessionState × Host)
    : Type 0 where
  made :
      (state : SessionState)
      → r.0 ≡ done state
      → r.1.process ≡ some state.init_pid
      → r.1.state ≡ some state
      → r.1.wiped ≡ b
      → CreateEnds k s b r
  undone : (c : HostCall) → r.0 ≡ failed c → IsClean b r.1 → CreateEnds k s b r
  root_unfinished :
      (c : HostCall) (dir lower src : Bytes) (h : Host)
      → (setup_filesystem k dir lower src h).0 ≡ failed c
      → r.0 ≡ failed c
      → r.1.process ≡ none
      → r.1.cgroup ≡ false
      → CreateEnds k s b r
  cgroup_unfinished :
      (c : HostCall) (h : Host)
      → (create_cgroup k s h).0 ≡ failed c
      → r.0 ≡ failed c
      → IsClean b (record r.1 { cgroup = false })
      → CreateEnds k s b r

module _ (k : Kernel) where
  -- A call without effect.
  perform-still :
      (c : HostCall)
      → ((h : Host) → effect k c h ≡ h)
      → (h : Host) → (perform k c h).1 ≡ noted k c h
  unfolding perform
  perform-still c e h = elim (Bool-cases (k.fails (c ∷ h.calls))) [
    | inl f ↦ rw f refl
    | inr f ↦ rw f (e (noted k c h))
  ]

  -- How the start of the process ends.
  data Started (h : Host) (r : Outcome ℤ × Host) : Type 0 where
    running :
        (pid : ℤ) → r.0 ≡ done pid → r.1.process ≡ some pid → r.1.wiped ≡ h.wiped → Started h r
    unstarted :
        (c : HostCall)
        → r.0 ≡ failed c
        → r.1.process ≡ h.process
        → r.1.wiped ≡ h.wiped
        → Started h r

  start-Started : (s : Setup) (h : Host) → Started h (start k s h)
  unfolding start perform effect ◌>>=◌
  start-Started s h = elim (Bool-cases (k.fails (start_process ∷ h.calls))) [
    | inl f ↦ rw f (unstarted start_process refl refl refl)
    | inr f ↦ rw f (running _ refl refl refl)
  ]

  module _ (c : Cleans k) (s : Setup) (b : Bool) where
    store-Ends :
        (state : SessionState) (h : Host)
        → h.process ≡ some state.init_pid
        → h.wiped ≡ b
        → CreateEnds k s b (store_state k s state h)
    unfolding store_state or_else perform effect ◌>>=◌ give
    store-Ends state h p w = elim (Bool-cases (k.fails (write_state state ∷ h.calls))) [
      | inl f ↦ rw f (undone _ refl (undo_process k c b (noted k (write_state state) h) w))
      | inr f ↦ rw f (made state refl p refl w)
    ]

    stored :
        (id mnt : Bytes) (pid : ℤ) (h : Host)
        → h.process ≡ some pid
        → h.wiped ≡ b
        → CreateEnds k s b (store_found k s id mnt pid h)
    unfolding store_found drop_error attempt_all attempt effect ◌>>=◌
    stored id mnt pid h p w = elim (Bool-cases (k.fails (remove_log ∷ h.calls))) [
      | inl f ↦ rw f (store-Ends _ (noted k remove_log h) p w)
      | inr f ↦ rw f (store-Ends _ (noted k remove_log h) p w)
    ]

    open_log-kept : (h : Host) → (perform k open_log h).1 ≡ noted k open_log h
    unfolding effect
    open_log-kept h = perform-still open_log (λ g. refl) h

    attach-kept : (h : Host) → (perform k attach_process h).1 ≡ noted k attach_process h
    unfolding effect
    attach-kept h = perform-still attach_process (λ g. refl) h

    wait-kept : (h : Host) → (perform k wait_socket h).1 ≡ noted k wait_socket h
    unfolding effect
    wait-kept h = perform-still wait_socket (λ g. refl) h

    -- The steps behind the start of the process.
    run-Ends :
        (id mnt : Bytes) (pid : ℤ) (h : Host)
        → h.process ≡ some pid
        → h.wiped ≡ b
        → CreateEnds k s b (watch k s id mnt pid h)
    unfolding watch
    run-Ends id mnt pid h p w =
        stage_or_else k _ (perform k attach_process) _ h (CreateEnds k s b)
          (λ e q. undone e refl (undo_process_log k c b _ (rw (attach-kept h) w)))
          (λ u q.
            stage_or_else k _ (perform k wait_socket) _ _ (CreateEnds k s b)
              (λ e q'. undone e refl (undo_process_log k c b _ (rw (wait-kept, attach-kept) w)))
              (λ u' q'. rw (wait-kept, attach-kept) (stored id mnt pid _ p w)))

    launched :
        (id mnt : Bytes) (h : Host) (r : Outcome ℤ × Host)
        → h.process ≡ none
        → h.wiped ≡ b
        → Started h r
        → ((e : HostCall) → r.0 ≡ failed e → IsClean b (attempt_all k (remove_log ∷ on_cgroup) r.1))
          × ((pid : ℤ) → r.0 ≡ done pid → CreateEnds k s b (watch k s id mnt pid r.1))
    launched id mnt h r p w (running pid q run same) =
        (λ e x. cc (q, x), λ n x. run-Ends id mnt n r.1 (cc (run, q, x)) (same ∙ w))
    launched id mnt h r p w (unstarted e q still same) =
        (λ e' x. undo_cgroup_log k c b r.1 (still ∙ p) (same ∙ w), λ n x. cc (q, x))

    launch-Ends :
        (id mnt : Bytes) (h : Host)
        → h.process ≡ none
        → h.wiped ≡ b
        → CreateEnds k s b (launch k s id mnt h)
    unfolding launch
    launch-Ends id mnt h p w =
        stage_or_else k _ (perform k open_log) _ h (CreateEnds k s b)
          (λ e q.
            undone e refl (undo_cgroup k c b _ (rw (open_log-kept h) p) (rw (open_log-kept h) w)))
          (λ u q.
            let g = (perform k open_log h).1 in
            let (bad, good) =
              launched id mnt g (start k s g) (rw (open_log-kept h) p) (rw (open_log-kept h) w)
                (start-Started s g) in
            stage_or_else k _ (start k s) _ g (CreateEnds k s b) (λ e q'. undone e refl (bad e q'))
              good)

    build-Ends :
        (id lower src : Bytes) (h : Host)
        → h.process ≡ none
        → h.cgroup ≡ false
        → h.wiped ≡ b
        → CreateEnds k s b (build k s id lower src h)
    unfolding build
    build-Ends id lower src h p g w =
        stage_or_else k _ (setup_filesystem k _ lower src) _ h (CreateEnds k s b)
          (λ e q.
            let x = kept _ (Keeps-setup_filesystem k _ lower src) h in
            let (still, ungrouped) = dir_removed k c b _ in
            root_unfinished e _ lower src h q refl (still ∙ x.process_kept ∙ p)
              (ungrouped ∙ x.cgroup_kept ∙ g))
          (λ u q.
            let x = kept _ (Keeps-setup_filesystem k _ lower src) h in
            stage_or_else k _ (prepare_root k s _) _ _ (CreateEnds k s b)
              (λ e q'.
                let y = kept _ (Keeps-prepare_root k s _) _ in
                undone e refl (
                  undo_mounts k c b _ (y.process_kept ∙ x.process_kept ∙ p)
                    (y.cgroup_kept ∙ x.cgroup_kept ∙ g) (y.wiped_kept ∙ x.wiped_kept ∙ w)))
              (λ u' q'.
                let y = kept _ (Keeps-prepare_root k s _) _ in
                let p2 = y.process_kept ∙ x.process_kept ∙ p in
                let w2 = y.wiped_kept ∙ x.wiped_kept ∙ w in
                let z = kept _ (Keeps-create_cgroup k s) _ in
                stage_or_else k _ (create_cgroup k s) _ _ (CreateEnds k s b)
                  (λ e q2.
                    cgroup_unfinished e _ q2 refl
                      (undo_but_cgroup k c b _ (z.process_kept ∙ p2) (z.wiped_kept ∙ w2)))
                  (λ u2 q2. launch-Ends id _ _ (z.process_kept ∙ p2) (z.wiped_kept ∙ w2))))

abbrev stays_clean : HostRelation
stays_clean = record {
  rel = λ g h. (b : Bool) → IsClean b g → IsClean b h;
  rel_refl = λ h b v. v;
  rel_trans = λ g h i x y b v. y b (x b v);
}

module _ (k : Kernel) where
  noted-IsClean : (c : HostCall) (b : Bool) (h : Host) → IsClean b h → IsClean b (noted k c h)
  noted-IsClean c b h v = record {
    no_dir = v.no_dir;
    no_mount = v.no_mount;
    no_bind = v.no_bind;
    no_cgroup = v.no_cgroup;
    no_process = v.no_process;
    same_wiped = v.same_wiped;
  }

  still-IsClean : (c : HostCall) → ((h : Host) → effect k c h ≡ h) → IsKeptBy stays_clean k c
  still-IsClean c e h =
      (λ b v. noted-IsClean c b h v, λ b v. rw (e (noted k c h)) (noted-IsClean c b h v))

  stat-clean : (b : Bool) (p : Bytes) → Keeps stays_clean (when b (perform k (stat p)))
  unfolding effect
  stat-clean b p = Keeps-when b _ (Keeps-perform k _ (still-IsClean (stat p) (λ h. refl)))

  workspace-clean :
      (b : Bool) (s : Setup) (src : Bytes) → Keeps stays_clean (when b (make_workspace_dir k s src))
  unfolding make_workspace_dir effect
  workspace-clean b s src = Keeps-when b _ (
      Keeps-bind _ _ (Keeps-perform k _ (still-IsClean (make_workspace src) (λ h. refl)))
        (λ u. Keeps-perform k _ (still-IsClean (chown_workspace src) (λ h. refl))))

  -- Where nothing of the session was on the host before and the calls that clean up do not fail, Create
  -- ends in one of four ways: the sandbox runs, and the process and the state.json of the host are the
  -- ones that it returns; or a call failed, and of the directory, the mounts, the cgroup and the
  -- process nothing is left, and no workspace was emptied; or it was a call of SetupFilesystem, and
  -- there is no process and no cgroup; or one of CreateCgroup, and then nothing but the cgroup can be
  -- left.
  pub create-Ends :
      (s : Setup) (opts : CreateOpts) (layers : List Bytes) (b : Bool) (h : Host)
      → Cleans k
      → IsClean b h
      → CreateEnds k s b (create k s opts layers h)
  unfolding create
  create-Ends s opts layers b h c v =
      stage (when _ (perform k (stat _))) _ h (CreateEnds k s b)
        (λ e q. undone e refl (kept _ (stat-clean _ _) h b v))
        (λ u q.
          let x = kept _ (stat-clean _ _) h b v in
          stage (when _ (make_workspace_dir k s _)) _ _ (CreateEnds k s b)
            (λ e q'. undone e refl (kept _ (workspace-clean _ s _) _ b x))
            (λ u' q'.
              let y = kept _ (workspace-clean _ s _) _ b x in
              build-Ends k c s b _ _ _ _ y.no_process y.no_cgroup y.same_wiped))
