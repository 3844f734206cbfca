-- ===== src/Store.antt =====
-- internal/store/store.go. A statement changes the table or fails as the database driver says; what
-- SQLite does with the text of a statement is written out as a function on the rows. `New`, the
-- migrations and the pragmas are not modelled.
mod Rows
pub mod Retry
pub mod Writes
pub mod Outcomes
pub mod Reads
pub mod Keys
pub mod RowHistory
pub mod RowRules
unfoldable pub use Rows.{
  status_eq, find_row, insert_row, update_row, delete_row, count_rows, running_rows, expired_rows,
  newest_first,
}
pub use Rows.{Table}
use sandkasten.Base.{
  ℕ, zero, suc, ◌*◌, Bool, false, ◌||◌, Option, none, some, List, [], ◌∷◌, ◌==◌, if◌then◌else◌,
}
use mathlib.Core.Option
use sandkasten.Base.Int.{ℤ, millisecond}
use sandkasten.Base.Text.{Bytes, codes, contains}
use sandkasten.World.{
  Session, Status, History, statement, clock_read, slept, Env, World, Error, db_failed, no_row,
  Result, ok, err,
}
use sandkasten.World.Action.{Action, pure, fail, gets, call, ◌>>=◌, ◌>>◌}

-- isBusyLock, on the error's text.
pub is_busy_lock : Bytes → Bool
unfolding contains
is_busy_lock s = contains (codes "database is locked") s || contains (codes "SQLITE_BUSY") s

-- Whether retryOnBusy goes on: the only errors that a statement gives are the driver's.
pub is_retried : {A : Type 0} → Result A → Bool
is_retried (err (db_failed text)) = is_busy_lock text
is_retried _ = false

-- The loop of retryOnBusy, by the attempts that are left after the next one.
retry : {A : Type 0} → ℕ → ℕ → Action A → Action A
retry zero backoff fn w = fn w
retry (suc left) backoff fn w =
    let (r, w') = fn w in
    let again = retry left (backoff * 2) fn (record w' { history = slept backoff ∷ w'.history }) in
    if is_retried r then again else (r, w')

pub retry_on_busy : {A : Type 0} → Action A → Action A
unfolding retry
retry_on_busy fn = retry 3 (25 * millisecond) fn

or_db_error : Option Bytes → Action ℕ → Action ℕ
or_db_error none m = m
or_db_error (some text) m = fail (db_failed text)

checked : Option Bytes → {A : Type 0} → (World → A) → Action A
checked none f = gets f
checked (some text) f = fail (db_failed text)

affected : Bytes → ℕ → Option Bytes → Action (Unit {0})
affected id n (some text) = fail (db_failed text)
affected id zero none = fail (no_row id)
affected id (suc n) none = pure tt

-- UPDATE … WHERE id = ?, and what it says of the rows.
change_row : Bytes → (Session → Session) → Table → Option (Table × ℕ)
change_row id f t = some (update_row id f t, count_rows id t)

unfoldable pub set_activity : Bytes → ℤ → ℤ → Session → Session
set_activity cwd now expires s = record s { cwd = cwd; last_activity = now; expires_at = expires }

-- INSERT INTO sessions, and the row that it affects.
add_row : Session → Table → Option (Table × ℕ)
add_row s t = elim (insert_row s t) [ none ↦ none | some t' ↦ some (t', 1) ]

-- scanSession and scanSessions never fail: the columns hold what was written.
module _ (env : Env) where
  -- The effect of a write statement that the driver carries out: the rows and how many it affected.
  carry_out : Option (Table × ℕ) → World → Result ℕ × World
  carry_out none w = (err (db_failed env.duplicate_error), w)
  carry_out (some (t, n)) w = (ok n, record w { table = t })

  -- db.Exec
  pub db_exec : (Table → Option (Table × ℕ)) → Action ℕ
  unfolding carry_out or_db_error
  db_exec change = do
    e ← call statement env.db_error
    or_db_error e (λ w. carry_out (change w.table) w)

  -- db.Query and db.QueryRow with the scan of the rows.
  db_query : {A : Type 0} → (Table → A) → Action A
  unfolding checked
  db_query select = do e ← call statement env.db_error; checked e (λ w. select w.table)

  -- checkRowAffected
  check_row_affected : ℕ → Bytes → Action (Unit {0})
  unfolding affected
  check_row_affected n id = do e ← gets (λ w. env.rows_error w.history); affected id n e

  pub create_session : Session → Action (Unit {0})
  create_session sess = do n ← retry_on_busy (db_exec (add_row sess)); pure tt

  pub get_session : Bytes → Action (Option Session)
  get_session id = db_query (find_row id)

  pub list_sessions : Action (List Session)
  list_sessions = db_query newest_first

  -- The statement of UpdateSessionActivity, which reads the clock at each attempt.
  touch_row : Bytes → Bytes → ℤ → Action ℕ
  touch_row id cwd expires = do
    now ← call clock_read env.now
    db_exec (change_row id (set_activity cwd now expires))

  pub update_session_activity : Bytes → Bytes → ℤ → Action (Unit {0})
  update_session_activity id cwd expires = do
    n ← retry_on_busy (touch_row id cwd expires)
    check_row_affected n id

  pub update_session_status : Bytes → Status → Action (Unit {0})
  update_session_status id status = do
    n ← retry_on_busy (db_exec (change_row id (λ s. record s { status = status })))
    check_row_affected n id

  pub update_session_workspace : Bytes → Bytes → Action (Unit {0})
  update_session_workspace id workspace = do
    n ← retry_on_busy (db_exec (change_row id (λ s. record s { workspace_id = workspace })))
    check_row_affected n id

  pub list_expired_sessions : Action (List Session)
  list_expired_sessions = do now ← call clock_read env.now; db_query (expired_rows now)

  pub list_running_sessions : Action (List Session)
  list_running_sessions = db_query running_rows

  pub delete_session : Bytes → Action (Unit {0})
  delete_session id = do
    n ← retry_on_busy (db_exec (λ t. some (delete_row id t, count_rows id t)))
    check_row_affected n id
