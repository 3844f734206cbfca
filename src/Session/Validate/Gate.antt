-- ===== src/Session/Validate/Gate.antt =====
-- What stands between a caller and the runtime in Exec, ExecStream, Write and Read (exec.go, fs.go).
use sandkasten.Base.{◌≡◌, refl, ◌∷◌, true, false, Option, none, some, Bool-cases, inl, inr, arith}
use sandkasten.Base.Int.{ltb_ℤ}
use sandkasten.Base.Text.{Bytes}
use sandkasten.World.{
  Session, Status, running, pool_idle, destroying, destroyed, expired, crashed, statement,
  clock_read, World, Env, Error, db_failed, not_found, not_running, session_expired, Result, err,
}
use sandkasten.World.Action.{Action, ◌>>=◌}
use sandkasten.Store.{find_row}
use sandkasten.Store.{status_eq}
use sandkasten.Store.Reads.{found, get_session-found}
use sandkasten.Session.{Manager}
use sandkasten.Session.Validate.{unexpired, usable, validate_session}

-- The world after a look at the table, and after one at the clock too.
abbrev pub asked : World → World
asked w = record w { history = statement ∷ w.history }

abbrev pub timed : World → World
timed w = record w { history = clock_read ∷ statement ∷ w.history }

-- The session is stored, running, and not past its expiry at the time that the clock shows; or the
-- operation returned an error, and did no more than look at the table and perhaps the clock.
pub data Gate (env : Env) (id : Bytes) (w : World) {A : Type 0} (r : Result A × World)
    : Type 0 where
  open_for :
      (s : Session)
      → find_row id w.table ≡ some s
      → s.status ≡ running
      → ltb_ℤ s.expires_at (env.now (timed w).history) ≡ false
      → Gate env id w r
  shut : (e : Error) → r ≡ (err e, asked w) → Gate env id w r
  late : (e : Error) → r ≡ (err e, timed w) → Gate env id w r

pub Gate-bind :
    (env : Env) (id : Bytes) (w : World) {A B : Type 0} (m : Action A) (f : A → Action B)
    → Gate env id w (m w)
    → Gate env id w ((m >>= f) w)
unfolding ◌>>=◌
Gate-bind env id w m f (open_for s e run fresh) = open_for s e run fresh
Gate-bind env id w m f (shut e q) = shut e (rw q refl)
Gate-bind env id w m f (late e q) = late e (rw q refl)

running-status_eq : (s : Status) → status_eq s running ≡ true → s ≡ running
running-status_eq running h = refl
running-status_eq pool_idle h = cc
running-status_eq destroying h = cc
running-status_eq destroyed h = cc
running-status_eq expired h = cc
running-status_eq crashed h = cc

module _ (env : Env) (m : Manager) (id : Bytes) (w : World) where
  usable-Gate :
      (o : Option Session) → find_row id w.table ≡ o → Gate env id w (usable env m id o (asked w))
  unfolding usable unexpired ◌>>=◌
  usable-Gate none h = shut (not_found id) refl
  usable-Gate (some s) h = elim (Bool-cases (status_eq s.status running)) [
    | inr e ↦ shut (not_running id s.status) (rw e refl)
    | inl e ↦ elim (Bool-cases (ltb_ℤ s.expires_at (env.now (timed w).history))) [
      | inl late_now ↦ late (session_expired id) (ground arith)
      | inr fresh ↦ open_for s h (running-status_eq s.status e) fresh
    ]
  ]

  found-Gate :
      (e : Option Bytes)
      → env.db_error (statement ∷ w.history) ≡ e
      → Gate env id w (validate_session env m id w)
  unfolding validate_session ◌>>=◌ found
  found-Gate none h = rw (get_session-found env id w, h) (usable-Gate _ refl)
  found-Gate (some text) h = rw (get_session-found env id w, h) (shut (db_failed text) refl)

  pub validate_session-Gate : Gate env id w (validate_session env m id w)
  validate_session-Gate = found-Gate _ refl
