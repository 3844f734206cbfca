-- ===== src/Store/Outcomes.antt =====
-- How each operation of the store can end: what it returns, and what it did to the table. Nothing but
-- the table and the history changes.
use sandkasten.Base.{
  ℕ, suc, ◌≡◌, refl, ◌⊎◌, inl, inr, Option, none, some, ◌∷◌, [], arith, Bool-cases,
}
use sandkasten.Base.Int.{ℤ}
use sandkasten.Base.Text.{Bytes, str_eq}
use sandkasten.World.{
  Session, Status, World, History, Env, statement, clock_read, Error, db_failed, no_row, Result, ok,
  err,
}
use sandkasten.World.Action.{Action, pure, fail, gets, ◌>>=◌}
use sandkasten.Store.{
  Table, find_row, insert_row, update_row, count_rows, db_exec, checked, db_query, affected,
  check_row_affected, get_session, change_row, update_session_status, update_session_activity,
  update_session_workspace, create_session, set_activity, add_row, touch_row,
}
use sandkasten.Store.Writes.{
  with_rows, with_history, Change, By, Wrote, done, failed, weaken, db_exec-Wrote,
  retry_on_busy-Wrote,
}

-- How an UPDATE of the row `id` by one of `F` ends: the row is changed and that is reported; it is
-- changed and the driver does not say so; there is no such row; or the driver fails.
pub data Updated (id : Bytes) (F : (Session → Session) → Type 0) (w : World)
    (r : Result (Unit {0}) × World) : Type 0 where
  updated :
      (f : Session → Session) (s : Session) (h : History)
      → F f
      → find_row id w.table ≡ some s
      → r ≡ (ok tt, with_rows w (update_row id f w.table) h)
      → Updated id F w r
  uncounted :
      (f : Session → Session) (e : Error) (h : History)
      → F f
      → r ≡ (err e, with_rows w (update_row id f w.table) h)
      → Updated id F w r
  missing :
      (h : History)
      → find_row id w.table ≡ none
      → r ≡ (err (no_row id), with_history w h)
      → Updated id F w r
  refused : (e : Error) (h : History) → r ≡ (err e, with_history w h) → Updated id F w r

-- A row is found exactly if a statement with its key affects some row.
count_rows-find_row :
    (id : Bytes) (t : Table)
    → ((count_rows id t ≡ 0) × (find_row id t ≡ none))
      ⊎ ((n : ℕ) × (s : Session) × (count_rows id t ≡ suc n) × (find_row id t ≡ some s))
unfolding count_rows find_row
count_rows-find_row id [] = inl (refl, refl)
count_rows-find_row id (s ∷ t) = elim (Bool-cases (str_eq s.id id)) [
  | inl e ↦ rw e (inr (count_rows id t, s, refl, refl))
  | inr e ↦ rw e (count_rows-find_row id t)
]

update_row-missing :
    (id : Bytes) (f : Session → Session) (t : Table) → find_row id t ≡ none → update_row id f t ≡ t
unfolding update_row find_row
update_row-missing id f [] h = refl
update_row-missing id f (s ∷ t) h = ground (arith, update_row-missing id f t)

-- The rows that an UPDATE of row `id` by one of `F` leaves.
abbrev RowChange : Bytes → ((Session → Session) → Type 0) → Change
RowChange id F t u n =
    (f : Session → Session) × F f × (u ≡ update_row id f t) × (n ≡ count_rows id t)

module _ (env : Env) (id : Bytes) (F : (Session → Session) → Type 0) (w : World) where
  counted :
      (f : Session → Session) (h : History) (e : Option Bytes)
      → F f
      → Updated id F w
          (affected id (count_rows id w.table) e (with_rows w (update_row id f w.table) h))
  unfolding affected fail pure
  counted f h (some text) pf = uncounted f (db_failed text) h pf refl
  counted f h none pf = elim (count_rows-find_row id w.table) [
    | inl (z, absent) ↦ rw z (rw (update_row-missing id f w.table absent) (missing h absent refl))
    | inr (n, s, z, found) ↦ rw z (updated f s h pf found refl)
  ]

  check-Updated :
      (m : Action ℕ)
      → Wrote (RowChange id F) w (m w)
      → Updated id F w ((m >>= λ n. check_row_affected env n id) w)
  unfolding ◌>>=◌ check_row_affected
  check-Updated m (failed e h q) = rw q (refused e h refl)
  check-Updated m (done t n h (f, pf, u, c) q) = rw (q, u, c) (counted f h (env.rows_error h) pf)

module _ (env : Env) (id : Bytes) (w : World) where
  change-Wrote :
      (F : (Session → Session) → Type 0) (f : Session → Session) (h : History)
      → F f
      → Wrote (RowChange id F) w (db_exec env (change_row id f) (with_history w h))
  unfolding change_row
  change-Wrote F f h pf =
      weaken (By (change_row id f)) (RowChange id F) w _ (λ t u n c. (f, pf, cc, cc))
        (db_exec-Wrote env (change_row id f) w h)

module _ (env : Env) (id : Bytes) where
  -- UpdateSessionStatus ends in one of four ways: it reports success and the row, which is there, has
  -- the new status; the row was changed and only the count of rows failed; there is no such row, an
  -- error says so and the table is as it was; or the statement failed and the table is as it was.
  pub update_session_status-Updated :
      (status : Status) (w : World)
      → Updated id
          (λ f. f ≡ (λ s. record s { status = status }))
          w
          (update_session_status env id status w)
  unfolding update_session_status
  update_session_status-Updated status w =
      check-Updated env id _ w _
        (retry_on_busy-Wrote _ _ (λ v. change-Wrote env id v _ _ v.history refl) w)

  -- UpdateSessionWorkspace
  pub update_session_workspace-Updated :
      (workspace : Bytes) (w : World)
      → Updated id
          (λ f. f ≡ (λ s. record s { workspace_id = workspace }))
          w
          (update_session_workspace env id workspace w)
  unfolding update_session_workspace
  update_session_workspace-Updated workspace w =
      check-Updated env id _ w _
        (retry_on_busy-Wrote _ _ (λ v. change-Wrote env id v _ _ v.history refl) w)

  touch_row-Wrote :
      (cwd : Bytes) (expires : ℤ) (w : World)
      → Wrote
          (RowChange id (λ f. (now : ℤ) × (f ≡ set_activity cwd now expires)))
          w
          (touch_row env id cwd expires w)
  unfolding touch_row ◌>>=◌
  touch_row-Wrote cwd expires w =
      let h = clock_read ∷ w.history in change-Wrote env id w _ _ h (env.now h, refl)

  -- UpdateSessionActivity ends in the same four ways, its change being that the row gets the
  -- directory, the expiry, and a last activity that is some time.
  pub update_session_activity-Updated :
      (cwd : Bytes) (expires : ℤ) (w : World)
      → Updated id
          (λ f. (now : ℤ) × (f ≡ set_activity cwd now expires))
          w
          (update_session_activity env id cwd expires w)
  unfolding update_session_activity
  update_session_activity-Updated cwd expires w =
      check-Updated env id _ w _ (retry_on_busy-Wrote _ _ (touch_row-Wrote cwd expires) w)

-- How a look-up of the row `id` ends.
pub data Got (id : Bytes) (w : World) (r : Result (Option Session) × World) : Type 0 where
  got : (h : History) → r ≡ (ok (find_row id w.table), with_history w h) → Got id w r
  unread : (e : Error) (h : History) → r ≡ (err e, with_history w h) → Got id w r

checked-Got :
    (id : Bytes) (w : World) (h : History) (e : Option Bytes)
    → Got id w (checked e (λ v. find_row id v.table) (with_history w h))
unfolding checked gets fail
checked-Got id w h none = got h refl
checked-Got id w h (some text) = unread (db_failed text) h refl

-- GetSession
pub get_session-Got : (env : Env) (id : Bytes) (w : World) → Got id w (get_session env id w)
unfolding get_session db_query ◌>>=◌
get_session-Got env id w = let h = statement ∷ w.history in checked-Got id w h (env.db_error h)

-- How an INSERT ends: the row is added and no row had its key, or nothing changes.
pub data Inserted (s : Session) (w : World) (r : Result (Unit {0}) × World) : Type 0 where
  inserted :
      (t : Table) (h : History)
      → insert_row s w.table ≡ some t
      → r ≡ (ok tt, with_rows w t h)
      → Inserted s w r
  rejected : (e : Error) (h : History) → r ≡ (err e, with_history w h) → Inserted s w r

add_row-insert_row :
    (s : Session) (t u : Table) (n : ℕ) → add_row s t ≡ some (u, n) → insert_row s t ≡ some u
unfolding add_row
add_row-insert_row s t u n e = ground arith

module _ (env : Env) (s : Session) (w : World) where
  created : (m : Action ℕ) → Wrote (By (add_row s)) w (m w) → Inserted s w ((m >>= λ n. pure tt) w)
  unfolding ◌>>=◌
  created m (done t n h c e) = rw e (inserted t h (add_row-insert_row s w.table t n c) refl)
  created m (failed x h e) = rw e (rejected x h refl)

  -- CreateSession reports success and the row was added, where no row had its key; or it returns an
  -- error and the table is as it was.
  pub create_session-Inserted : Inserted s w (create_session env s w)
  unfolding create_session
  create_session-Inserted =
      created _ (retry_on_busy-Wrote _ _ (λ v. db_exec-Wrote env (add_row s) v v.history) w)
