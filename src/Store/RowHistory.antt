-- ===== src/Store/RowHistory.antt =====
-- What happens to single rows over a run: a relation between a row and its later self, which every
-- row of the table keeps to, and the store's operations that follow it.
use sandkasten.Base.{◌≡◌, refl, inl, inr, Option, none, some, arith, Bool-cases}
use sandkasten.Base.Int.{ℤ}
use sandkasten.Base.Text.{Bytes, str_eq, str_eq_iff}
use sandkasten.World.{Session, Status, World, Env, db_failed, Result}
use sandkasten.World.Action.Follows.{
  Preorder, Follows, every, Follows-gets, Follows-fail, follows_rules,
}
use sandkasten.Store
use sandkasten.Store.{Table, find_row, insert_row, update_row, set_activity}
use sandkasten.Store.Keys.{find_row-update_row, find_row-insert_row}
use sandkasten.Store.Outcomes.{
  Updated, updated, uncounted, missing, refused, Got, got, unread, Inserted, inserted, rejected,
  update_session_status-Updated, update_session_activity-Updated, update_session_workspace-Updated,
  get_session-Got, create_session-Inserted,
}

pub record RowRelation : Type 1 where
  pub rel : Session → Session → Type 0
  pub rel_refl : (s : Session) → rel s s
  pub rel_trans : (s t u : Session) → rel s t → rel t u → rel s u

module _ (r : RowRelation) where
  -- The row that `id` has stays, and goes on to a related row.
  abbrev pub KeepsRow : Bytes → Table → Table → Type 0
  KeepsRow id t u =
      (s : Session)
      → find_row id t ≡ some s
      → (s' : Session) × (find_row id u ≡ some s') × r.rel s s'

  -- Every row stays, as a related row.
  abbrev pub KeepsRows : World → World → Type 0
  KeepsRows v w = (id : Bytes) → KeepsRow id v.table w.table

  pub KeepsRows-refl : (w : World) → KeepsRows w w
  KeepsRows-refl w id s e = (s, e, r.rel_refl s)

  pub KeepsRows-trans : (u v w : World) → KeepsRows u v → KeepsRows v w → KeepsRows u w
  KeepsRows-trans u v w h k id s e =
      let (s', e', p) = h id s e in
      let (s'', e'', q) = k id s' e' in (s'', e'', r.rel_trans s s' s'' p q)

  -- A session's row over a whole run.
  abbrev pub row_history : Preorder
  row_history = record {
    rel = KeepsRows;
    rel_refl = KeepsRows-refl;
    rel_trans = KeepsRows-trans;
    rel_call = λ e w id s h. (s, h, r.rel_refl s);
  }

  update_row-KeepsRow :
      (id j : Bytes) (f : Session → Session) (t : Table)
      → ((s : Session) → (f s).id ≡ s.id)
      → ((s : Session) → r.rel s (f s))
      → KeepsRow j t (update_row id f t)
  update_row-KeepsRow id j f t same kept s e = elim (Bool-cases (str_eq id j)) [
    | inl b ↦ (
      f s,
      rw (find_row-update_row id j f same t, b) (rw ((str_eq_iff id j).0 b) (rw e refl)),
      kept s,
    )
    | inr b ↦ (s, rw (find_row-update_row id j f same t, b) e, r.rel_refl s)
  ]

  insert_row-KeepsRow :
      (j : Bytes) (s : Session) (t u : Table) → insert_row s t ≡ some u → KeepsRow j t u
  insert_row-KeepsRow j new t u e s h =
      (s, ground (arith, find_row-insert_row j new t u, str_eq_iff new.id j), r.rel_refl s)

  -- An UPDATE by functions that keep the key and lead to a related row.
  abbrev IsRowStep : ((Session → Session) → Type 0) → Type 0
  IsRowStep F =
      (f : Session → Session)
      → F f
      → ((s : Session) → (f s).id ≡ s.id) × ((s : Session) → r.rel s (f s))

  Updated-KeepsRows :
      (id : Bytes) (F : (Session → Session) → Type 0) (w : World) (x : Result (Unit {0}) × World)
      → IsRowStep F
      → Updated id F w x
      → KeepsRows w x.1
  Updated-KeepsRows id F w x ok_step (updated f s h pf found e) j =
      let (same, kept) = ok_step f pf in rw e (update_row-KeepsRow id j f w.table same kept)
  Updated-KeepsRows id F w x ok_step (uncounted f er h pf e) j =
      let (same, kept) = ok_step f pf in rw e (update_row-KeepsRow id j f w.table same kept)
  Updated-KeepsRows id F w x ok_step (missing h absent e) j = rw e (KeepsRows-refl w j)
  Updated-KeepsRows id F w x ok_step (refused er h e) j = rw e (KeepsRows-refl w j)

  module _ (env : Env) where
    pub Follows-status :
        (id : Bytes) (status : Status)
        → ((s : Session) → r.rel s (record s { status = status }))
        → Follows row_history (Store.update_session_status env id status)
    Follows-status id status kept = every λ w.
        Updated-KeepsRows id _ w _ (λ f e. (λ s. rw e refl, λ s. rw e (kept s)))
          (update_session_status-Updated env id status w)

    pub Follows-activity :
        (id cwd : Bytes) (expires : ℤ)
        → ((s : Session) (now : ℤ) → r.rel s (set_activity cwd now expires s))
        → Follows row_history (Store.update_session_activity env id cwd expires)
    unfolding set_activity
    Follows-activity id cwd expires kept = every λ w.
        Updated-KeepsRows id _ w _ (λ f p. (λ s. rw p.1 refl, λ s. rw p.1 (kept s p.0)))
          (update_session_activity-Updated env id cwd expires w)

    pub Follows-workspace :
        (id workspace : Bytes)
        → ((s : Session) → r.rel s (record s { workspace_id = workspace }))
        → Follows row_history (Store.update_session_workspace env id workspace)
    Follows-workspace id workspace kept = every λ w.
        Updated-KeepsRows id _ w _ (λ f e. (λ s. rw e refl, λ s. rw e (kept s)))
          (update_session_workspace-Updated env id workspace w)

    Got-KeepsRows :
        (id : Bytes) (w : World) (x : Result (Option Session) × World)
        → Got id w x
        → KeepsRows w x.1
    Got-KeepsRows id w x (got h e) = rw e (KeepsRows-refl w)
    Got-KeepsRows id w x (unread er h e) = rw e (KeepsRows-refl w)

    pub Follows-get_session : (id : Bytes) → Follows row_history (Store.get_session env id)
    Follows-get_session id = every (λ w. Got-KeepsRows id w _ (get_session-Got env id w))

    Inserted-KeepsRows :
        (new : Session) (w : World) (x : Result (Unit {0}) × World)
        → Inserted new w x
        → KeepsRows w x.1
    Inserted-KeepsRows new w x (inserted t h c e) j = rw e (insert_row-KeepsRow j new w.table t c)
    Inserted-KeepsRows new w x (rejected er h e) j = rw e (KeepsRows-refl w j)

    pub Follows-create_session :
        (new : Session) → Follows row_history (Store.create_session env new)
    Follows-create_session new =
        every λ w. Inserted-KeepsRows new w _ (create_session-Inserted env new w)

-- The queries change no row.
checked-Follows :
    {p : Preorder} {A : Type 0} (e : Option Bytes) (f : World → A) → Follows p (Store.checked e f)
unfolding Store.checked
checked-Follows none f = Follows-gets f
checked-Follows (some text) f = Follows-fail (db_failed text)

module _ {p : Preorder} (env : Env) where
  Follows-query : {A : Type 0} (select : Table → A) → Follows p (Store.db_query env select)
  unfolding Store.db_query
  Follows-query select = search (follows_rules, checked-Follows)

  pub Follows-list_running : Follows p (Store.list_running_sessions env)
  unfolding Store.list_running_sessions
  Follows-list_running = Follows-query _

  pub Follows-list_sessions : Follows p (Store.list_sessions env)
  unfolding Store.list_sessions
  Follows-list_sessions = Follows-query _

  pub Follows-list_expired : Follows p (Store.list_expired_sessions env)
  unfolding Store.list_expired_sessions
  Follows-list_expired = search (follows_rules, Follows-query)
