-- ===== src/Runtime/Network/Allotment.antt =====
-- The two maps of the address pool against each other.
use sandkasten.Base.{
  ℕ, suc, zero, ◌+◌, ◌≡◌, refl, subst, true, false, Option, none, some, ◌==◌, Bool-cases, inl, inr,
  arith,
}
use sandkasten.Base.Text.{Bytes, str_eq_iff}
use sandkasten.Runtime.Network.{
  IpPool, first_ip, advance, allot, allocate_ip, scan, release_ip, release_allotted,
}
use sandkasten.Runtime.Network.Scan.{last_ip}

-- Every address that a session has is in use, and no two sessions have the same.
pub record IsAllotted (p : IpPool) : Type 0 where
  pub marked : (id : Bytes) (ip : ℕ) → p.sessions id ≡ some ip → p.used ip ≡ true
  pub single :
      (id id' : Bytes) (ip : ℕ) → p.sessions id ≡ some ip → p.sessions id' ≡ some ip → id ≡ id'

allot-IsAllotted :
    (id : Bytes) (ip : ℕ) (p : IpPool)
    → p.used ip ≡ false
    → IsAllotted p
    → IsAllotted (allot id ip p)
allot-IsAllotted id ip p free v = record {
  marked = λ i a h. ground (arith, v.marked i a);
  single = λ i j a h k.
      ground (arith, v.marked i a, v.marked j a, v.single i j a, str_eq_iff i id, str_eq_iff j id);
}

moved-IsAllotted : (p : IpPool) (n : ℕ) → IsAllotted p → IsAllotted (record p { next = n })
moved-IsAllotted p n v = record { marked = v.marked; single = v.single }

scan-IsAllotted :
    (fuel start : ℕ) (id : Bytes) (p : IpPool) (o : Option ℕ) (p' : IpPool)
    → scan fuel start id p ≡ some (o, p')
    → IsAllotted p
    → IsAllotted p'
unfolding scan
scan-IsAllotted zero start id p o p' e v = cc
scan-IsAllotted (suc fuel) start id p o p' e v = elim (Bool-cases (p.used p.next)) [
  | inr u ↦ subst IsAllotted (given (rw u at e)) (allot-IsAllotted id p.next p u v)
  | inl u ↦ elim (Bool-cases (advance p.next == start)) [
    | inl n ↦ subst IsAllotted (moved (rw (u, n) at e)) (moved-IsAllotted p _ v)
    | inr n ↦
        scan-IsAllotted fuel start id (record p { next = advance p.next }) o p' (rw (u, n) at e)
          (moved-IsAllotted p _ v)
  ]
]
  where
    given :
        {q : IpPool}
        → ◌≡◌ {A = Option (Option ℕ × IpPool)} (some (some p.next, q)) (some (o, p'))
        → q ≡ p'
    given h = cc

    moved :
        {q : IpPool} → ◌≡◌ {A = Option (Option ℕ × IpPool)} (some (none, q)) (some (o, p')) → q ≡ p'
    moved h = cc

released :
    (id : Bytes) (p : IpPool) (o : Option ℕ)
    → p.sessions id ≡ o
    → IsAllotted p
    → IsAllotted (release_allotted id p o)
unfolding release_allotted
released id p none e v = v
released id p (some ip) e v = record {
  marked = λ i a h. ground (arith, v.marked i a, v.single i id ip, str_eq_iff i id);
  single = λ i j a h k. ground (arith, v.single i j a, str_eq_iff i id, str_eq_iff j id);
}

-- The pool as the program starts with it.
abbrev pub fresh_pool : IpPool
fresh_pool = record { used = λ ip. false; sessions = λ id. none; next = first_ip }

-- The pools that calls of AllocateIP and ReleaseIP, for whatever sessions, lead to.
pub data Reached : IpPool → Type 0 where
  fresh : Reached fresh_pool
  allocated :
      (fuel : ℕ) (id : Bytes) (p : IpPool) (o : Option ℕ) (p' : IpPool)
      → Reached p
      → allocate_ip fuel id p ≡ some (o, p')
      → Reached p'
  freed : (id : Bytes) (p : IpPool) → Reached p → Reached (release_ip id p)

-- In every pool that AllocateIP and ReleaseIP lead to, each session's address is marked as in use, and
-- no two sessions have the same address.
pub Reached-IsAllotted : (p : IpPool) → Reached p → IsAllotted p
unfolding allocate_ip release_ip
Reached-IsAllotted p fresh = record { marked = λ id ip h. cc; single = λ id id' ip h k. cc }
Reached-IsAllotted p (allocated fuel id q o q' r e) =
    scan-IsAllotted fuel q.next id q o q' e (Reached-IsAllotted q r)
Reached-IsAllotted p (freed id q r) = released id q (q.sessions id) refl (Reached-IsAllotted q r)

-- Where the last address of the subnet, 10.55.255.255, is given out, the next address is not brought
-- back to the start: the session after it gets 10.56.0.0, which is outside the subnet.
pub allocate_ip-past_subnet :
    (id id' : Bytes) (p : IpPool)
    → p.next ≡ last_ip
    → p.used last_ip ≡ false
    → p.used (last_ip + 1) ≡ false
    → (q : IpPool) × (r : IpPool) × (allocate_ip 1 id p ≡ some (some last_ip, q))
      × (allocate_ip 1 id' q ≡ some (some (last_ip + 1), r))
unfolding allocate_ip scan
allocate_ip-past_subnet id id' p n u v =
    (allot id p.next p, allot id' (last_ip + 1) (allot id p.next p), ground arith, ground arith)
