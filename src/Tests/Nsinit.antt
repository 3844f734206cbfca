-- ===== src/Tests/Nsinit.antt =====
-- Runs of the model of a sandbox's first process on concrete inputs.
use sandkasten.Base.{
  ◌≡◌, refl, ℕ, zero, suc, ◌%◌, ◌^◌, ◌==◌, true, false, List, [], ◌∷◌, ◌++◌, map, drop, length,
  if◌then◌else◌,
}
use sandkasten.Base.Int.{pos}
use sandkasten.Base.Text.{codes, str_eq}
use sandkasten.Runtime.Nsinit.{
  NsKernel, set_no_new_privs, drop_capability, set_gid, set_uid, dropped, nsinit_main, newns,
  newpid, newuts, newipc, newuser, newnet, clone_flags, Profile, ns_config,
}
use sandkasten.Runtime.Seccomp.{
  Syscall, bpf, mount, setns, unshare, Unix, SockFilter, deny, deny_each, seccomp_filter,
}
use sandkasten.Runtime.Seccomp.Filter.{Bpf, is_in, seccomp_filter-answer}
use sandkasten.Runtime.Nsinit.Hardened.{filters_of, root_calls, runner_call, ns_config-Planned}
use sandkasten.Runtime.Nsinit.Plans.{Planned}

-- Some numbers of x86-64.
abbrev number : Syscall → ℕ
number bpf = 321
number mount = 165
number setns = 308
number unshare = 272
number _ = 101

abbrev unix : Unix
unix = record {
  number = number;
  load_word = 32;
  jump_equal = 21;
  return_value = 6;
  deny_eperm = 327681;
  allow = 2147418112;
}

-- A machine for the three instructions, with the instructions that are still to be skipped.
unfoldable skipping : ℕ → List SockFilter → ℕ → (ℕ → ℕ) → ℕ
skipping n [] acc word = 0
skipping (suc n) (i ∷ p) acc word = skipping n p acc word
skipping zero (i ∷ p) acc word =
    let loaded = skipping zero p (word i.k) word in
    let jumped = skipping (if acc == i.k then i.jt else i.jf) p acc word in
    if i.code == 32 then loaded else if i.code == 21 then jumped else i.k

skipping-drop :
    (n : ℕ) (p : List SockFilter) (acc : ℕ) (word : ℕ → ℕ)
    → skipping n p acc word ≡ skipping 0 (drop n p) acc word
unfolding skipping
skipping-drop zero p acc word = refl
skipping-drop (suc n) [] acc word = refl
skipping-drop (suc n) (i ∷ p) acc word = skipping-drop n p acc word

abbrev machine : Bpf unix
unfolding skipping
machine = record {
  answer = λ p acc word. skipping 0 p acc word;
  answer-load = λ jt jf k acc p word. refl;
  answer-jump = λ jt jf k acc p word. skipping-drop (if acc == k then jt else jf) p acc word;
  answer-return = λ jt jf k acc p word. refl;
}

abbrev words : ℕ → ℕ
words _ = 308

seccomp_filter-answer_example :
    (machine.answer (seccomp_filter unix true) 0 words
      ≡ (if is_in 308 (deny unix true) then 327681 else 2147418112))
    × (length (seccomp_filter unix true) % 2 ^ 16 ≡ length (seccomp_filter unix true))
seccomp_filter-answer_example = seccomp_filter-answer unix machine true 0 words

setns_denied : machine.answer (seccomp_filter unix true) 0 words ≡ 327681
unfolding seccomp_filter deny_each skipping
setns_denied = refl

setns_allowed : machine.answer (seccomp_filter unix false) 0 words ≡ 2147418112
unfolding seccomp_filter deny_each skipping
setns_allowed = refl

abbrev kernel : NsKernel
kernel = record { fails = λ g c. false; is_dir = λ g. true; shows_session = λ g. true }

abbrev profile : Profile
profile = record {
  network_mode = codes "bridge";
  readonly_rootfs = true;
  seccomp = codes "strict";
  shell_prefer = [];
  exec_mode = codes "stateless";
}

ns_config-Planned_example :
    (clone_flags (ns_config profile (codes "0123abcd-456") (codes "/mnt") (codes "/cg"))
      ≡ newns
        ∷ newpid
        ∷ newuts
        ∷ newipc
        ∷ newuser
        ∷ (if str_eq (codes "bridge") (codes "host") then [] else newnet ∷ []))
    × Planned
        (root_calls (ns_config profile (codes "0123abcd-456") (codes "/mnt") (codes "/cg"))
          ++ (set_no_new_privs
                ∷ (filters_of unix (codes "strict")
                    ++ (map drop_capability dropped
                        ++ set_gid (pos 1000) ∷ set_uid (pos 1000) ∷ []))
              ++ runner_call (ns_config profile (codes "0123abcd-456") (codes "/mnt") (codes "/cg"))
                ∷ []))
        []
        (nsinit_main unix kernel
          (ns_config profile (codes "0123abcd-456") (codes "/mnt") (codes "/cg"))
          [])
ns_config-Planned_example =
    ns_config-Planned unix kernel profile (codes "0123abcd-456") (codes "/mnt") (codes "/cg")
