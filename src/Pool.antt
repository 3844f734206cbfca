-- ===== src/Pool.antt =====
-- internal/pool/pool.go. The mutex makes `Get` and each part of `Refill` under it one step; a
-- refill that runs in the background is a call of `refill` at some later world.
pub mod Key
pub mod Rows
pub mod Take
use sandkasten.Base.{
  ℕ, zero, suc, ◌-◌, Bool, true, false, ◌&&◌, ◌||◌, not, Option, none, some, List, [], ◌∷◌, ◌++◌,
  length, take, if◌then◌else◌,
}
use sandkasten.Base.Int.{ℤ, pos, negsuc, ◌+ℤ◌, ltb_ℤ}
use sandkasten.Base.Text.{Bytes, codes, str_eq, before}
use sandkasten.Config.{Config}
use sandkasten.World.{
  Session, pool_idle, Sandbox, sandbox_create, clock_read, id_made, Env, World, refill_cancelled,
  Result, ok, err,
}
use sandkasten.World.Action.{Action, pure, fail, gets, attempt, call, modify, ◌>>=◌, ◌>>◌}
use sandkasten.Store

-- The map `target` and the far expiry that idle sessions get.
pub record Pool : Type 0 where
  pub target : List (Bytes × ℤ)
  pub expiry : ℤ

abbrev pub bar : ℕ
bar = b'|'

unfoldable pub pool_key : Bytes → Bytes → Bytes
pool_key image workspace = image ++ bar ∷ workspace

-- An entry of a map from texts.
unfoldable pub find_target : Bytes → List (Bytes × ℤ) → Option ℤ
find_target key [] = none
find_target key ((k, n) ∷ m) = if str_eq k key then some n else find_target key m

unfoldable pub is_listed : Bytes → List Bytes → Bool
is_listed image [] = false
is_listed image (a ∷ l) = str_eq a image || is_listed image l

abbrev is_empty {ℓ} : {A : Type ℓ} → List A → Bool
is_empty [] = true
is_empty (a ∷ l) = false

-- The loop of `New` over the configured images.
targets : List Bytes → List (Bytes × ℤ) → List (Bytes × ℤ)
unfolding is_listed
targets allowed [] = []
targets allowed ((image, n) ∷ m) =
    let rest = targets allowed m in
    if ltb_ℤ (pos 0) n && (is_empty allowed || is_listed image allowed)
    then (pool_key image [], n) ∷ rest
    else rest

-- New
pub new_pool : Config → ℤ → Option Pool
unfolding targets
new_pool cfg expiry =
    if not cfg.pool_enabled || is_empty cfg.pool_images
    then none
    else let target = targets cfg.allowed_images cfg.pool_images in
      if is_empty target then none else some (record { target = target; expiry = expiry })

-- p.idle[key] = ids
unfoldable pub set_idle : Bytes → List Bytes → World → World
set_idle key ids w = record w { idle = λ k. if str_eq key k then ids else w.idle k }

-- ids[len(ids)-1] and ids[:len(ids)-1]
unfoldable pub split_last : List Bytes → Option (List Bytes × Bytes)
split_last [] = none
split_last (x ∷ xs) = elim (split_last xs) [
  | none ↦ some ([], x)
  | some (front, last) ↦ some (x ∷ front, last)
]

-- The target that `Get` goes by: a key with a workspace counts as wanted also when it has none.
pub is_served : Pool → Bytes → Bytes → Bool
unfolding find_target
is_served p image workspace = elim (find_target (pool_key image workspace) p.target) [
  | some n ↦ ltb_ℤ (pos 0) n
  | none ↦ not (str_eq workspace [])
]

take_last : Bytes → Option (List Bytes × Bytes) → Action (Option Bytes)
take_last key none = pure none
take_last key (some (front, last)) = do modify (set_idle key front); pure (some last)

pub get : Pool → Bytes → Bytes → Action (Option Bytes)
unfolding take_last
get p image workspace =
    let key = pool_key image workspace in
    if is_served p image workspace
    then (do ids ← gets (λ w. w.idle key); take_last key (split_last ids))
    else pure none

abbrev pub workspace_dir : Bytes
workspace_dir = codes "/workspace"

-- How many idle sessions `Refill` wants under the key, or nothing where it returns at once.
wanted : Pool → Bytes → Bytes → ℤ → Option ℤ
unfolding find_target
wanted p image workspace count =
    if str_eq workspace []
    then elim (find_target (pool_key image workspace) p.target) [
      | none ↦ none
      | some target ↦
          if not (ltb_ℤ (pos 0) target)
          then none
          else if not (ltb_ℤ (pos 0) count)
          then some target
          else if ltb_ℤ target count
          then some target
          else some count
    ]
    else if ltb_ℤ (pos 0) count
    then some count
    else some (pos 1)

-- The rounds of a loop that counts up to `count - current`.
pub needed : ℤ → ℕ → ℕ
needed (pos n) current = n - current
needed (negsuc n) current = 0

module _ (env : Env) (p : Pool) where
  idle_session : Bytes → Bytes → Bytes → Sandbox → ℤ → Session
  idle_session id image workspace sandbox now = record {
    id = id;
    image = image;
    init_pid = sandbox.init_pid;
    cgroup_path = sandbox.cgroup_path;
    status = pool_idle;
    cwd = workspace_dir;
    workspace_id = workspace;
    created_at = now;
    expires_at = now +ℤ p.expiry;
    last_activity = now;
  }

  -- `p.idle[key] = append(p.idle[key], sessionID)`, unless the row was not stored.
  put_idle : Bytes → Bytes → Result (Unit {0}) → Action (Unit {0})
  put_idle key id (err e) = pure tt
  put_idle key id (ok _) = modify (λ w. set_idle key (w.idle key ++ id ∷ []) w)

  stock : Bytes → Bytes → Bytes → Option Sandbox → Action (Unit {0})
  unfolding put_idle
  stock image workspace id none = pure tt
  stock image workspace id (some sandbox) = do
    now ← call clock_read env.now
    stored ← attempt (Store.create_session env (idle_session id image workspace sandbox now))
    put_idle (pool_key image workspace) id stored

  -- One round of the loop of `Refill`.
  refill_one : Bytes → Bytes → Action (Unit {0})
  refill_one image workspace = do
    text ← call id_made env.uuid
    let id = take 12 text
    sandbox ←
        call (sandbox_create (record { session_id = id; image = image; workspace_id = workspace }))
          env.create
    stock image workspace id sandbox

  refill_rounds : ℕ → Bytes → Bytes → Action (Unit {0})
  refill_rounds zero image workspace = pure tt
  refill_rounds (suc left) image workspace =
      let rest = refill_rounds left image workspace in
      do
        done ← gets (λ w. env.cancelled w.history)
        if done then fail refill_cancelled else (refill_one image workspace >> rest)

  refill_up_to : Bytes → Bytes → Option ℤ → Action (Unit {0})
  refill_up_to image workspace none = pure tt
  refill_up_to image workspace (some count) = do
    ids ← gets (λ w. w.idle (pool_key image workspace))
    refill_rounds (needed count (length ids)) image workspace

  -- Refill
  pub refill : Bytes → Bytes → ℤ → Action (Unit {0})
  unfolding refill_up_to
  refill image workspace count = refill_up_to image workspace (wanted p image workspace count)

  -- The loop of RefillAll: an error of one refill is logged.
  refill_targets : List (Bytes × ℤ) → Action (Unit {0})
  refill_targets [] = pure tt
  refill_targets ((key, count) ∷ m) = do
    r ← attempt (refill (before bar key) [] count)
    refill_targets m

  pub refill_all : Action (Unit {0})
  unfolding refill_targets
  refill_all = refill_targets p.target
