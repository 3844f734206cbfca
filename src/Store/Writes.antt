-- ===== src/Store/Writes.antt =====
-- A write statement (db.Exec of internal/store/store.go) alone and under retryOnBusy: it is carried
-- out once, or changes no row.
use sandkasten.Base.{
  ℕ, zero, suc, ◌*◌, ◌≡◌, refl, inl, inr, Option, none, some, ◌∷◌, Bool-cases, if◌then◌else◌,
}
use sandkasten.Base.Int.{millisecond}
use sandkasten.Base.Text.{Bytes}
use sandkasten.World.{World, History, Env, slept, statement, Error, db_failed, Result, ok, err}
use sandkasten.World.Action.{Action, fail, ◌>>=◌}
use sandkasten.Store.{Table, is_retried, retry, retry_on_busy, carry_out, or_db_error, db_exec}

-- The world with other rows and a longer history.
abbrev pub with_rows : World → Table → History → World
with_rows w t h = record w { table = t; history = h }

abbrev pub with_history : World → History → World
with_history w h = record w { history = h }

-- What a write may do to the rows: the rows before, the rows after, and how many it affects.
abbrev pub Change : Type 1
Change = Table → Table → ℕ → Type 0

-- How a write ends, run once or again and again: it is done once, or it changes no row.
pub data Wrote (d : Change) (w : World) (r : Result ℕ × World) : Type 0 where
  done :
      (t : Table) (n : ℕ) (h : History) → d w.table t n → r ≡ (ok n, with_rows w t h) → Wrote d w r
  failed : (e : Error) (h : History) → r ≡ (err e, with_history w h) → Wrote d w r

abbrev pub By : (Table → Option (Table × ℕ)) → Change
By change t u n = change t ≡ some (u, n)

same_table :
    (d : Change) (w : World) (h : History) (r : Result ℕ × World)
    → Wrote d (with_history w h) r
    → Wrote d w r
same_table d w h r (done t n g c e) = done t n g c e
same_table d w h r (failed x g e) = failed x g e

pub weaken :
    (d d' : Change) (w : World) (r : Result ℕ × World)
    → ((t u : Table) (n : ℕ) → d t u n → d' t u n)
    → Wrote d w r
    → Wrote d' w r
weaken d d' w r k (done t n h c e) = done t n h (k w.table t n c) e
weaken d d' w r k (failed x h e) = failed x h e

module _ (env : Env) (change : Table → Option (Table × ℕ)) (w : World) where
  carry_out-Wrote :
      (h : History) (o : Option (Table × ℕ))
      → change w.table ≡ o
      → Wrote (By change) w (carry_out env o (with_history w h))
  unfolding carry_out
  carry_out-Wrote h none c = failed (db_failed env.duplicate_error) h refl
  carry_out-Wrote h (some (t, n)) c = done t n h c refl

  or_db_error-Wrote :
      (h : History) (o : Option Bytes)
      → Wrote
          (By change)
          w
          (or_db_error o (λ v. carry_out env (change v.table) v) (with_history w h))
  unfolding or_db_error fail
  or_db_error-Wrote h none = carry_out-Wrote h (change w.table) refl
  or_db_error-Wrote h (some text) = failed (db_failed text) h refl

  pub db_exec-Wrote : (h : History) → Wrote (By change) w (db_exec env change (with_history w h))
  unfolding db_exec ◌>>=◌
  db_exec-Wrote h = or_db_error-Wrote (statement ∷ h) (env.db_error (statement ∷ h))

module _ (d : Change) (fn : Action ℕ) (step : (w : World) → Wrote d w (fn w)) where
  again-Wrote :
      (left backoff delay : ℕ) (w : World) (r : Result ℕ × World)
      → ((v : World) → Wrote d v (retry left backoff fn v))
      → Wrote d w r
      → Wrote d w (
          if is_retried r.0
          then retry left backoff fn (record r.1 { history = slept delay ∷ r.1.history })
          else r)
  again-Wrote left backoff delay w r ih (done t n h c e) =
      rw e (unfold is_retried in done t n h c refl)
  again-Wrote left backoff delay w r ih (failed x h e) = elim (Bool-cases (is_retried r.0)) [
    | inl b ↦ rw b (rw e (same_table d w (slept delay ∷ h) _ (ih _)))
    | inr b ↦ rw b (failed x h e)
  ]

  retry-Wrote : (left backoff : ℕ) (w : World) → Wrote d w (retry left backoff fn w)
  unfolding retry
  retry-Wrote zero backoff w = step w
  retry-Wrote (suc left) backoff w =
      again-Wrote left (backoff * 2) backoff w (fn w) (retry-Wrote left (backoff * 2)) (step w)

  pub retry_on_busy-Wrote : (w : World) → Wrote d w (retry_on_busy fn w)
  unfolding retry_on_busy
  retry_on_busy-Wrote w = retry-Wrote 3 (25 * millisecond) w
