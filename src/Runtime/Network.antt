-- ===== src/Runtime/Network.antt =====
-- internal/runtime/linux/network.go: the pool of addresses of the bridge mode. The two maps are
-- functions, and an address is the number that its sixteen bytes make, most significant first; the
-- mutex makes each function one step.
pub mod Scan
pub mod Allotment
use sandkasten.Base.{
  ℕ, zero, suc, ◌+◌, ◌*◌, ◌/◌, ◌%◌, ◌^◌, Bool, true, false, ◌||◌, not, Option, none, some, ◌==◌,
  if◌then◌else◌,
}
use sandkasten.Base.Text.{Bytes, str_eq}

-- usedIPs, sessionIPs and nextIP
pub record IpPool : Type 0 where
  pub used : ℕ → Bool
  pub sessions : Bytes → Option ℕ
  pub next : ℕ

-- net.ParseIP("10.55.0.2"): an IPv4 address in sixteen bytes.
abbrev pub first_ip : ℕ
first_ip = 65535 * 2 ^ 32 + 10 * 2 ^ 24 + 55 * 2 ^ 16 + 2

-- ip[12] and ip[13]
abbrev pub octet_12 : ℕ → ℕ
octet_12 ip = ip / 2 ^ 24 % 256

abbrev pub octet_13 : ℕ → ℕ
octet_13 ip = ip / 2 ^ 16 % 256

-- incIP, which carries through all sixteen bytes.
abbrev pub inc_ip : ℕ → ℕ
inc_ip ip = (ip + 1) % 2 ^ 128

-- The next address on the path of the loop where the one before is in use.
abbrev pub advance : ℕ → ℕ
advance ip =
    let n = inc_ip ip in if not (octet_12 n == 10) || not (octet_13 n == 55) then first_ip else n

abbrev pub set_used : ℕ → Bool → (ℕ → Bool) → ℕ → Bool
set_used ip b used k = if k == ip then b else used k

abbrev pub set_session : Bytes → Option ℕ → (Bytes → Option ℕ) → Bytes → Option ℕ
set_session id o sessions k = if str_eq k id then o else sessions k

-- The address `ip` goes to the session `id`.
abbrev pub allot : Bytes → ℕ → IpPool → IpPool
allot id ip p = record {
  used = set_used ip true p.used;
  sessions = set_session id (some ip) p.sessions;
  next = inc_ip ip;
}

-- The loop of AllocateIP, with fuel: `none` where the fuel runs out, and in the result `none` for the
-- error that the pool is exhausted.
unfoldable pub scan : ℕ → ℕ → Bytes → IpPool → Option (Option ℕ × IpPool)
scan zero start id p = none
scan (suc fuel) start id p =
    let n = advance p.next in
    let rest = scan fuel start id (record p { next = n }) in
    if p.used p.next
    then (if n == start then some (none, record p { next = n }) else rest)
    else some (some p.next, allot id p.next p)

-- AllocateIP
pub allocate_ip : ℕ → Bytes → IpPool → Option (Option ℕ × IpPool)
allocate_ip fuel id p = scan fuel p.next id p

release_allotted : Bytes → IpPool → Option ℕ → IpPool
release_allotted id p none = p
release_allotted id p (some ip) = record p {
  used = set_used ip false p.used;
  sessions = set_session id none p.sessions;
}

-- ReleaseIP
pub release_ip : Bytes → IpPool → IpPool
unfolding release_allotted
release_ip id p = release_allotted id p (p.sessions id)

-- GetIPForSession
pub get_ip_for_session : Bytes → IpPool → Option ℕ
get_ip_for_session id p = p.sessions id
