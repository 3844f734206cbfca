-- ===== src/Session/Acquire/Live.antt =====
-- The session that `Create` hands out from the pool is stored as running, with the expiry and the
-- directory that the caller is told.
use sandkasten.Base.{◌≡◌, refl, sym, ap, ◌∙◌, some}
use sandkasten.Base.Int.{ℤ}
use sandkasten.Base.Text.{Bytes, str_eq_refl}
use sandkasten.World.{Session, running, World, Env, Result, ok, err}
use sandkasten.World.Action.{ignore, ◌>>=◌}
use sandkasten.Store
use sandkasten.Store.{find_row, update_row, set_activity}
use sandkasten.Store.Keys.{find_row-update_row}
use sandkasten.Store.Outcomes.{
  Updated, updated, uncounted, missing, refused, update_session_status-Updated,
  update_session_activity-Updated,
}
use sandkasten.Session.{Manager, Info}
use sandkasten.Session.Acquire.{
  finish_active, finish_running, give_up, pooled_info, destroy_sandbox,
}

-- What the caller is told is what is stored.
pub record IsLive (info : Info) (w : World) : Type 0 where
  pub row : Session
  pub stored : find_row info.id w.table ≡ some row
  pub runs : row.status ≡ running
  pub told_status : info.status ≡ running
  pub expiry_told : row.expires_at ≡ info.expires_at
  pub cwd_told : row.cwd ≡ info.cwd

-- After an UPDATE that reports success the row is there, and changed.
Updated-ok :
    (id : Bytes) (F : (Session → Session) → Type 0) (w : World) (x : Result (Unit {0}) × World)
    → Updated id F w x
    → x.0 ≡ ok tt
    → (f : Session → Session) × (s : Session) × F f
      × (find_row id w.table ≡ some s)
      × (x.1.table ≡ update_row id f w.table)
Updated-ok id F w x (updated f s h pf found e) k =
    (f, s, pf, found, ap (λ (p : Result (Unit {0}) × World). p.1.table) e)
Updated-ok id F w x (uncounted f er h pf e) k = cc (ap (λ (p : Result (Unit {0}) × World). p.0) e)
Updated-ok id F w x (missing h absent e) k = cc (ap (λ (p : Result (Unit {0}) × World). p.0) e)
Updated-ok id F w x (refused er h e) k = cc (ap (λ (p : Result (Unit {0}) × World). p.0) e)

row_after :
    (id : Bytes) (f : Session → Session) (t : Store.Table) (s : Session)
    → ((r : Session) → (f r).id ≡ r.id)
    → find_row id t ≡ some s
    → find_row id (update_row id f t) ≡ some (f s)
row_after id f t s same e = rw (find_row-update_row id id f same t, str_eq_refl id, e) refl

some_inj : {A : Type 0} (a b : A) → some a ≡ some b → a ≡ b
some_inj a b e = cc

-- The row after the two UPDATEs, on the tables alone.
two_updates :
    (id cwd : Bytes) (now expires : ℤ) (f g : Session → Session) (t u v : Store.Table)
    (s s' : Session)
    → f ≡ (λ r. record r { status = running })
    → g ≡ set_activity cwd now expires
    → find_row id t ≡ some s
    → u ≡ update_row id f t
    → find_row id u ≡ some s'
    → v ≡ update_row id g u
    → (find_row id v ≡ some (set_activity cwd now expires s')) × (s'.status ≡ running)
unfolding set_activity
two_updates id cwd now expires f g t u v s s' ef eg found eu found' ev =
    let first : find_row id u ≡ some (record s { status = running }) =
      rw (eu, ef) (row_after id _ t s (λ r. refl) found) in
    (
      rw (ev, eg) (row_after id _ u s' (λ r. refl) found'),
      ap (λ (r : Session). r.status)
          (some_inj s' (record s { status = running }) (sym found' ∙ first)),
    )

module _ (env : Env) (m : Manager) (id : Bytes) (sess : Session) (workspace : Bytes) where
  -- The two updates of finishPoolAcquire, when both report success.
  both_updates :
      (expires : ℤ) (w w' w'' : World)
      → Store.update_session_status env id running w ≡ (ok tt, w')
      → Store.update_session_activity env id sess.cwd expires w' ≡ (ok tt, w'')
      → IsLive (pooled_info env m sess id workspace expires) w''
  unfolding pooled_info set_activity
  both_updates expires w w' w'' hx hy =
      let (f, s, pf, found, tx) =
        Updated-ok id _ w _ (update_session_status-Updated env id running w)
          (ap (λ (p : Result (Unit {0}) × World). p.0) hx) in
      let (g, s', pg, found', ty) =
        Updated-ok id _ w' _ (update_session_activity-Updated env id sess.cwd expires w')
          (ap (λ (p : Result (Unit {0}) × World). p.0) hy) in
      let (stored, runs) =
        two_updates id sess.cwd pg.0 expires f g w.table w'.table w''.table s s' pf pg.1 found
          (sym (ap (λ (p : Result (Unit {0}) × World). p.1.table) hx) ∙ tx) found'
          (sym (ap (λ (p : Result (Unit {0}) × World). p.1.table) hy) ∙ ty) in
      record {
        row = set_activity sess.cwd pg.0 expires s';
        stored = stored;
        runs = runs;
        told_status = refl;
        expiry_told = refl;
        cwd_told = refl;
      }

  finish_active-IsLive :
      (expires : ℤ) (w : World) (r : Result (Unit {0})) {info : Info} {w' : World}
      → finish_active env m id sess workspace expires r w ≡ (ok (some info), w')
      → (r ≡ ok tt) × (info ≡ pooled_info env m sess id workspace expires) × (w' ≡ w)
  unfolding finish_active ◌>>=◌ give_up destroy_sandbox ignore
  finish_active-IsLive expires w (err e) q = cc
  finish_active-IsLive expires w (ok u) q = (refl, cc, cc)

  pub finish_running-IsLive :
      (expires : ℤ) (w w' : World) (r : Result (Unit {0})) (info : Info) (w'' : World)
      → Store.update_session_status env id running w ≡ (r, w')
      → finish_running env m id sess workspace expires r w' ≡ (ok (some info), w'')
      → IsLive info w'' × (info.id ≡ id)
  unfolding finish_running ◌>>=◌ destroy_sandbox ignore pooled_info
  finish_running-IsLive expires w w' (err e) info w'' h q = cc
  finish_running-IsLive expires w w' (ok u) info w'' h q =
      let y = Store.update_session_activity env id sess.cwd expires w' in
      let (done, told, last) = finish_active-IsLive expires y.1 y.0 q in
      rw (told, last) (both_updates expires w w' y.1 h (λ i. (done i, y.1)), refl)
