-- ===== src/Runtime/Nsinit/Hardened.antt =====
-- What has been given up when the runner starts.
use sandkasten.Base.{
  ◌≡◌, refl, sym, ◌∙◌, ℕ, zero, suc, Bool, true, false, not, List, [], ◌∷◌, ◌++◌, map, append-nil,
  length, take, ltb, Bool-cases, inl, inr, if◌then◌else◌, arith,
}
use sandkasten.Base.Int.{pos, ltb_ℤ}
use sandkasten.Base.Text.{Bytes, codes, str_eq, eq_of_str_eq}
use sandkasten.Base.Path.{join}
use sandkasten.Runtime.Nsinit.{
  NsinitConfig, NsCall, set_hostname, make_private, bind_root, stat_dir, pivot_to, change_dir,
  mount_proc, mount_devpts, set_no_new_privs, set_filter, drop_capability, set_gid, set_uid,
  find_interface, read_cgroup, sleep, exec_runner, Capability, Log, NsKernel, unknown_profile,
  Stage, refuse, ◌>>◌, dropped, runner_env, perform, drop_error, wait_for, apply_seccomp,
  drop_capabilities, check_dir, change_root, give_up_rights, start_runner, nsinit_main, newns,
  newpid, newuts, newipc, newuser, newnet, clone_flags, Profile, ns_config,
}
use sandkasten.Runtime.Seccomp.{Unix, seccomp_filter, deny_each}
use sandkasten.Runtime.Nsinit.Plans.{
  is_needed, one_if, needed, Made, Planned, Makes, Plans, Makes-give, more, Makes-seq, Plans-seq,
  Makes-when, Makes-when_none, Makes-refuse, unneeded, Made-from,
}

-- The calls that a configuration asks for.
abbrev pub filters_of : Unix → Bytes → List NsCall
filters_of u profile =
    if str_eq profile (codes "mvp")
    then set_filter 32 (seccomp_filter u false) ∷ []
    else if str_eq profile (codes "strict")
    then set_filter 36 (seccomp_filter u true) ∷ []
    else []

abbrev pub root_calls : NsinitConfig → List NsCall
root_calls cfg =
    let old_root = join cfg.mnt (codes ".oldroot") in
    set_hostname (codes "sk-" ++ take 8 cfg.session_id)
    ∷ make_private (codes "/")
    ∷ bind_root cfg.mnt
    ∷ stat_dir old_root
    ∷ pivot_to cfg.mnt old_root
    ∷ change_dir (codes "/")
    ∷ mount_proc (codes "/proc")
    ∷ mount_devpts (codes "/dev/pts")
    ∷ []

abbrev pub rights_calls : Unix → NsinitConfig → List NsCall
rights_calls u cfg =
    one_if cfg.no_new_privs set_no_new_privs
    ++ (filters_of u cfg.seccomp
        ++ (map drop_capability dropped
            ++ (one_if (ltb_ℤ (pos 0) cfg.gid) (set_gid cfg.gid)
                ++ one_if (ltb_ℤ (pos 0) cfg.uid) (set_uid cfg.uid))))

abbrev pub runner_call : NsinitConfig → NsCall
runner_call cfg = exec_runner cfg.runner_path (cfg.runner_path ∷ []) (runner_env cfg)

abbrev pub plan : Unix → NsinitConfig → List NsCall
plan u cfg = root_calls cfg ++ (rights_calls u cfg ++ runner_call cfg ∷ [])

module _ (u : Unix) (kernel : NsKernel) where
  Plans-perform : (c : NsCall) → is_needed c ≡ true → Plans (perform u kernel c) (c ∷ [])
  unfolding perform
  Plans-perform c n g = elim (Bool-cases (kernel.fails g c)) [
    | inl e ↦ rw e ([], c ∷ [], sym (append-nil (needed g)), refl, λ q. cc q)
    | inr e ↦ rw (e, n) refl
  ]

  Makes-perform : (c : NsCall) → is_needed c ≡ true → Makes (perform u kernel c) (c ∷ [])
  unfolding perform
  Makes-perform c n g = elim (Bool-cases (kernel.fails g c)) [
    | inl e ↦ rw e ([], c ∷ [], sym (append-nil (needed g)), refl)
    | inr e ↦ rw (e, n) refl
  ]

  Makes-drop_error : (c : NsCall) → is_needed c ≡ false → Makes (drop_error u kernel c) []
  unfolding drop_error
  Makes-drop_error c n g =
      rw (unneeded c (not (kernel.fails g c)) g n) (sym (append-nil (needed g)))

  Makes-wait_for :
      (ready : Log → Bool) (c : NsCall) (ms rounds : ℕ)
      → is_needed c ≡ false
      → Makes (wait_for u kernel ready c ms rounds) []
  unfolding wait_for
  Makes-wait_for ready c ms zero n g = sym (append-nil (needed g))
  Makes-wait_for ready c ms (suc rounds) n g =
      let tried : Bool → Log = λ b. (c, b) ∷ g in
      let same : (b : Bool) → needed (tried b) ≡ needed g = λ b. unneeded c b g n in
      let later : (b : Bool)
          → Made [] g (wait_for u kernel ready c ms rounds ((sleep ms, true) ∷ tried b)) =
        λ b.
          Made-from ((sleep ms, true) ∷ tried b) g _ (append-nil (needed (tried b)) ∙ same b)
            (Makes-wait_for ready c ms rounds n ((sleep ms, true) ∷ tried b)) in
      elim (Bool-cases (kernel.fails g c)) [
        | inl e ↦ rw e (later false)
        | inr e ↦ elim (Bool-cases (ready (tried true))) [
          | inl r ↦ rw (e, r) (same true ∙ sym (append-nil (needed g)))
          | inr r ↦ rw (e, r) (later true)
        ]
      ]

  Makes-check_dir : Makes (check_dir u kernel) []
  unfolding check_dir
  Makes-check_dir g = elim (Bool-cases (kernel.is_dir g)) [
    | inl e ↦ rw e (sym (append-nil (needed g)))
    | inr e ↦ rw e ([], [], sym (append-nil (needed g)), refl)
  ]

  -- What makes the calls of a plan from the next one on.
  needs :
      (c : NsCall) (n : Stage) (l : List NsCall)
      → is_needed c ≡ true
      → Makes n l
      → Makes (perform u kernel c >> n) (c ∷ l)
  needs c n l e p = Makes-seq (perform u kernel c) n (c ∷ []) l (Makes-perform c e) p

  drops :
      (c : NsCall) (n : Stage) (l : List NsCall)
      → is_needed c ≡ false
      → Makes n l
      → Makes (drop_error u kernel c >> n) l
  drops c n l e p = Makes-seq (drop_error u kernel c) n [] l (Makes-drop_error c e) p

  -- The profiles' names.
  Makes-apply_seccomp :
      (profile : Bytes) → Makes (apply_seccomp u kernel profile) (filters_of u profile)
  unfolding apply_seccomp
  Makes-apply_seccomp profile = elim (Bool-cases (str_eq profile [])) [
    | inl e ↦ let p : profile ≡ [] = eq_of_str_eq profile [] e in rw p (unfold str_eq in Makes-give)
    | inr e ↦ elim (Bool-cases (str_eq profile (codes "off"))) [
      | inl o ↦
          let p : profile ≡ codes "off" = eq_of_str_eq profile _ o in
          rw p (unfold str_eq in Makes-give)
      | inr o ↦ elim (Bool-cases (str_eq profile (codes "mvp"))) [
        | inl m ↦
            rw (e, o, m)
              (unfold seccomp_filter deny_each in
                Makes-perform (set_filter 32 (seccomp_filter u false)) refl)
        | inr m ↦ elim (Bool-cases (str_eq profile (codes "strict"))) [
          | inl t ↦
              rw (e, o, m, t)
                (unfold seccomp_filter deny_each in
                  Makes-perform (set_filter 36 (seccomp_filter u true)) refl)
          | inr t ↦ rw (e, o, m, t) (Makes-refuse unknown_profile [])
        ]
      ]
    ]
  ]

  Makes-drop_capabilities :
      (cs : List Capability) → Makes (drop_capabilities u kernel cs) (map drop_capability cs)
  unfolding drop_capabilities
  Makes-drop_capabilities [] = Makes-give
  Makes-drop_capabilities (c ∷ cs) =
      needs (drop_capability c) _ (map drop_capability cs) refl (Makes-drop_capabilities cs)

  Makes-change_root : (cfg : NsinitConfig) → Makes (change_root u kernel cfg) (root_calls cfg)
  unfolding change_root
  Makes-change_root cfg = needs _ _ _ refl (
      needs _ _ _ refl (
        needs _ _ _ refl (
          drops _ _ _ refl (
            needs _ _ _ refl (
              Makes-seq _ _ [] _ Makes-check_dir (
                needs _ _ _ refl (
                  needs _ _ _ refl (
                    drops _ _ _ refl
                      (drops _ _ _ refl (needs _ _ _ refl (Makes-perform _ refl)))))))))))

  Makes-give_up_rights :
      (cfg : NsinitConfig) → Makes (give_up_rights u kernel cfg) (rights_calls u cfg)
  unfolding give_up_rights
  Makes-give_up_rights cfg =
      let gid = Makes-when (ltb_ℤ (pos 0) cfg.gid) _ _ (Makes-perform (set_gid cfg.gid) refl) in
      let uid = Makes-when (ltb_ℤ (pos 0) cfg.uid) _ _ (Makes-perform (set_uid cfg.uid) refl) in
      Makes-seq _ _ _ _ (Makes-when cfg.no_new_privs _ _ (Makes-perform set_no_new_privs refl)) (
        Makes-seq _ _ _ _ (Makes-apply_seccomp cfg.seccomp)
          (Makes-seq _ _ _ _ (Makes-drop_capabilities dropped) (Makes-seq _ _ _ _ gid uid)))

  Plans-start_runner :
      (cfg : NsinitConfig) → Plans (start_runner u kernel cfg) (runner_call cfg ∷ [])
  unfolding start_runner
  Plans-start_runner cfg =
      let network =
        Makes-when_none cfg.network_bridge _
          (Makes-wait_for (λ g. true) find_interface 100 50 refl) in
      let group = Makes-wait_for kernel.shows_session read_cgroup 10 100 refl in
      Plans-seq _ _ [] _ network
        (Plans-seq _ _ [] _ group (Plans-perform (runner_call cfg) refl) (λ e. cc e)) (λ e. cc e)

  pub nsinit_main-Planned :
      (cfg : NsinitConfig) → Planned (plan u cfg) [] (nsinit_main u kernel cfg [])
  unfolding nsinit_main
  nsinit_main-Planned cfg = elim (Bool-cases (ltb (length cfg.session_id) 8)) [
    | inl e ↦ rw e (unfold refuse in ([], plan u cfg, refl, refl, λ q. cc q))
    | inr e ↦ rw e (
        Plans-seq _ _ (root_calls cfg) _ (Makes-change_root cfg)
          (Plans-seq _ _ (rights_calls u cfg) _ (Makes-give_up_rights cfg) (Plans-start_runner cfg)
            (λ q. cc q))
          (more (rights_calls u cfg) _ (λ q. cc q)) [])
  ]

-- What the driver has a sandbox's first process do: it has its own network unless the mode is `host`; and
-- when the runner starts, these calls have succeeded in this order, and no other call that nsinit does
-- not go on without: the change of the root, no_new_privs, the profile's filter, the drop of every
-- capability on the list, the ids 1000 of the group and the user. When nsinit fails, it has made a first part
-- of them, without the exec of the runner.
pub ns_config-Planned :
    (u : Unix) (kernel : NsKernel) (p : Profile) (id mnt cgroup : Bytes)
    → (clone_flags (ns_config p id mnt cgroup)
        ≡ newns
          ∷ newpid
          ∷ newuts
          ∷ newipc
          ∷ newuser
          ∷ (if str_eq p.network_mode (codes "host") then [] else newnet ∷ []))
      × Planned
          (root_calls (ns_config p id mnt cgroup)
            ++ (set_no_new_privs
                  ∷ (filters_of u p.seccomp
                      ++ (map drop_capability dropped
                          ++ set_gid (pos 1000) ∷ set_uid (pos 1000) ∷ []))
                ++ runner_call (ns_config p id mnt cgroup) ∷ []))
          []
          (nsinit_main u kernel (ns_config p id mnt cgroup) [])
unfolding ns_config clone_flags
ns_config-Planned u kernel p id mnt cgroup =
    (ground arith, nsinit_main-Planned u kernel (ns_config p id mnt cgroup))
