-- ===== src/Runtime/Network/Scan.antt =====
-- AllocateIP: it ends, gives a free address of the subnet, and fails only if there is none.
use sandkasten.Base.{
  ℕ, zero, suc, ◌+◌, ◌-◌, ◌≤◌, ◌≡◌, refl, ◌⊎◌, inl, inr, Bool, true, false, Option, none, some,
  ◌==◌, Bool-cases, arith, ltb, leb, ◌&&◌, ◌||◌, if◌then◌else◌,
}
use sandkasten.Base.Text.{Bytes}
use sandkasten.Runtime.Network.{IpPool, first_ip, advance, allot, scan, allocate_ip}

-- 10.55.255.255
abbrev pub last_ip : ℕ
last_ip = first_ip + 65533

pub record IsInSubnet (ip : ℕ) : Type 0 where
  pub from_first : first_ip ≤ ip
  pub to_last : ip ≤ last_ip

-- The steps from one address to another on the circle of the subnet, one at least.
abbrev distance : ℕ → ℕ → ℕ
distance ip start = if ltb ip start then start - ip else start + 65534 - ip

-- An address that the loop has met on its way from `start` to `ip`.
abbrev is_passed : ℕ → ℕ → ℕ → Bool
is_passed start ip k = if leb start ip then leb start k && ltb k ip else leb start k || ltb k ip

-- An address of the subnet to hand out, or nothing, and then all are in use.
pub data Scanned (id : Bytes) (p : IpPool) (r : Option (Option ℕ × IpPool)) : Type 0 where
  given :
      (ip : ℕ)
      → IsInSubnet ip
      → p.used ip ≡ false
      → r ≡ some (some ip, allot id ip p)
      → Scanned id p r
  exhausted :
      ((ip : ℕ) → IsInSubnet ip → p.used ip ≡ true)
      → (n : ℕ) → IsInSubnet n
      → r ≡ some (none, record p { next = n })
      → Scanned id p r

advance_lem : (ip : ℕ) → IsInSubnet ip → advance ip ≡ (if ip == last_ip then first_ip else ip + 1)
advance_lem ip h = ground arith

advance-IsInSubnet : (ip : ℕ) → IsInSubnet ip → IsInSubnet (advance ip)
advance-IsInSubnet ip h = rw (advance_lem ip h) (ground arith)

-- What is passed one step later.
passed_step :
    (start ip k n : ℕ)
    → IsInSubnet start
    → IsInSubnet ip
    → IsInSubnet k
    → n ≡ (if ip == last_ip then first_ip else ip + 1)
    → (n == start) ≡ false
    → is_passed start n k ≡ true
    → (k ≡ ip) ⊎ (is_passed start ip k ≡ true)
passed_step start ip k n hs hi hk e ne h = ground arith

-- After the last step all are passed.
passed_all :
    (start ip k n : ℕ)
    → IsInSubnet start
    → IsInSubnet ip
    → IsInSubnet k
    → n ≡ (if ip == last_ip then first_ip else ip + 1)
    → (n == start) ≡ true
    → (k ≡ ip) ⊎ (is_passed start ip k ≡ true)
passed_all start ip k n hs hi hk e h = ground arith

distance_step :
    (start ip n : ℕ)
    → IsInSubnet start
    → IsInSubnet ip
    → n ≡ (if ip == last_ip then first_ip else ip + 1)
    → (n == start) ≡ false
    → distance n start + 1 ≡ distance ip start
distance_step start ip n hs hi e h = ground arith

distance_pos : (start ip : ℕ) → IsInSubnet start → IsInSubnet ip → distance ip start ≤ 0 → ⊥
distance_pos start ip hs hi h = ground arith

now_used :
    (used : ℕ → Bool) (ip k : ℕ) (b : Bool)
    → used ip ≡ true
    → (b ≡ true → used k ≡ true)
    → (k ≡ ip) ⊎ (b ≡ true)
    → used k ≡ true
now_used used ip k b u h (inl e) = rw e u
now_used used ip k b u h (inr e) = h e

scan-Scanned :
    (fuel start : ℕ) (id : Bytes) (p : IpPool)
    → IsInSubnet start
    → IsInSubnet p.next
    → distance p.next start ≤ fuel
    → ((k : ℕ) → IsInSubnet k → is_passed start p.next k ≡ true → p.used k ≡ true)
    → Scanned id p (scan fuel start id p)
unfolding scan
scan-Scanned zero start id p hs hn d h = absurd (distance_pos start p.next hs hn d)
scan-Scanned (suc fuel) start id p hs hn d h = elim (Bool-cases (p.used p.next)) [
  | inr u ↦ given p.next hn u (rw u refl)
  | inl u ↦ elim (Bool-cases (advance p.next == start)) [
    | inl e ↦
        exhausted
          (λ k hk.
            now_used p.used p.next k _ u (h k hk)
              (passed_all start p.next k (advance p.next) hs hn hk (advance_lem p.next hn) e))
          (advance p.next) (advance-IsInSubnet p.next hn) (rw (u, e) refl)
    | inr e ↦
        rw (u, e)
          (again _ (
            scan-Scanned fuel start id (record p { next = advance p.next }) hs
              (advance-IsInSubnet p.next hn)
              (let c =
                  distance_step start p.next (advance p.next) hs hn (advance_lem p.next hn) e in
                omega arith)
              (λ k hk pk. now_used p.used p.next k _ u (h k hk) (
                passed_step start p.next k (advance p.next) hs hn hk (advance_lem p.next hn) e
                  pk))))
  ]
]
  where
    again :
        (r : Option (Option ℕ × IpPool))
        → Scanned id (record p { next = advance p.next }) r
        → Scanned id p r
    again r (given ip i f e) = given ip i f e
    again r (exhausted all n i e) = exhausted all n i e

-- From a next address in the subnet, AllocateIP ends within as many rounds as the subnet has addresses
-- from 10.55.0.2 on. It gives the session an address of the subnet that was not in use, and marks it;
-- or it reports that the pool is exhausted, and then every such address is in use.
pub allocate_ip-Scanned :
    (fuel : ℕ) (id : Bytes) (p : IpPool)
    → IsInSubnet p.next
    → 65534 ≤ fuel
    → Scanned id p (allocate_ip fuel id p)
unfolding allocate_ip
allocate_ip-Scanned fuel id p h f =
    scan-Scanned fuel p.next id p h h (ground arith) (λ k hk e. absurd (ground arith))
