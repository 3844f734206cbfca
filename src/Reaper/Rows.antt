-- ===== src/Reaper/Rows.antt =====
-- The reaper, as changes of rows.
use sandkasten.Base.{ℕ, zero, suc, ◌≢◌, Bool, false, Option, none, some, List, [], ◌∷◌}
use sandkasten.Base.Text.{Bytes}
use sandkasten.World.{Session, Status, running, expired, crashed, Env, Result, ok, err}
use sandkasten.World.Action.Follows.{Follows, follows_rules}
use sandkasten.Store.RowHistory.{
  RowRelation, row_history, Follows-get_session, Follows-list_expired, Follows-list_running,
}
use sandkasten.Store.RowRules.{AllowsUse}
use sandkasten.Session.Exec.Rows.{Follows-set_lock}
use sandkasten.Session.Query.Rows.{Follows-rest}
use sandkasten.Reaper.{
  cleanup_lock, retire, reap_each, reap_listed, reap_expired, reconcile_probed, reconcile_each,
  reconcile_dir, reconcile_dirs, found_dirs, reconcile_orphans, reconcile_listed, reconcile,
  reap_ticks, run,
}

module _ (r : RowRelation) (a : AllowsUse r) (env : Env) (has_manager : Bool) where
  cleanup_lock-Follows : (id : Bytes) → Follows (row_history r) (cleanup_lock env has_manager id)
  unfolding cleanup_lock
  cleanup_lock-Follows id = search (follows_rules, Follows-set_lock r)

  retire-Follows :
      (status : Status) (id : Bytes)
      → status ≢ running
      → Follows (row_history r) (retire env has_manager status id)
  unfolding retire
  retire-Follows status id h =
      search (follows_rules, Follows-rest r a env id status h, cleanup_lock-Follows)

  reap_each-Follows : (l : List Session) → Follows (row_history r) (reap_each env has_manager l)
  unfolding reap_each
  reap_each-Follows [] = search follows_rules
  reap_each-Follows (s ∷ l) =
      search (follows_rules, retire-Follows expired s.id (λ e. cc), reap_each-Follows l)

  reap_listed-Follows :
      (l : Result (List Session)) → Follows (row_history r) (reap_listed env has_manager l)
  unfolding reap_listed
  reap_listed-Follows (err e) = search follows_rules
  reap_listed-Follows (ok l) = reap_each-Follows l

  pub Follows-reap_expired : Follows (row_history r) (reap_expired env has_manager)
  unfolding reap_expired
  Follows-reap_expired = search (follows_rules, Follows-list_expired env, reap_listed-Follows)

  reconcile_probed-Follows :
      (id : Bytes) (alive : Option Bool)
      → Follows (row_history r) (reconcile_probed env has_manager id alive)
  unfolding reconcile_probed
  reconcile_probed-Follows id (some false) = retire-Follows crashed id (λ e. cc)
  reconcile_probed-Follows id _ = search follows_rules

  reconcile_each-Follows :
      (l : List Session) → Follows (row_history r) (reconcile_each env has_manager l)
  unfolding reconcile_each
  reconcile_each-Follows [] = search follows_rules
  reconcile_each-Follows (s ∷ l) =
      search (follows_rules, reconcile_probed-Follows, reconcile_each-Follows l)

  reconcile_dir-Follows :
      (id : Bytes) (row : Result (Option Session))
      → Follows (row_history r) (reconcile_dir env has_manager id row)
  unfolding reconcile_dir
  reconcile_dir-Follows id (err e) = search follows_rules
  reconcile_dir-Follows id (ok none) = search follows_rules
  reconcile_dir-Follows id (ok (some s)) = search (follows_rules, cleanup_lock-Follows)

  reconcile_dirs-Follows :
      (l : List Bytes) → Follows (row_history r) (reconcile_dirs env has_manager l)
  unfolding reconcile_dirs
  reconcile_dirs-Follows [] = search follows_rules
  reconcile_dirs-Follows (id ∷ l) =
      search
        (follows_rules, Follows-get_session r env, reconcile_dir-Follows, reconcile_dirs-Follows l)

  found_dirs-Follows :
      (o : Option (List Bytes)) → Follows (row_history r) (found_dirs env has_manager o)
  unfolding found_dirs
  found_dirs-Follows none = search follows_rules
  found_dirs-Follows (some l) = reconcile_dirs-Follows l

  reconcile_listed-Follows :
      (l : Result (List Session)) → Follows (row_history r) (reconcile_listed env has_manager l)
  unfolding reconcile_listed reconcile_orphans
  reconcile_listed-Follows (err e) = search follows_rules
  reconcile_listed-Follows (ok l) =
      search (follows_rules, reconcile_each-Follows, found_dirs-Follows)

  pub Follows-reconcile : Follows (row_history r) (reconcile env has_manager)
  unfolding reconcile
  Follows-reconcile = search (follows_rules, Follows-list_running env, reconcile_listed-Follows)

  reap_ticks-Follows : (n : ℕ) → Follows (row_history r) (reap_ticks env has_manager n)
  unfolding reap_ticks
  reap_ticks-Follows zero = search follows_rules
  reap_ticks-Follows (suc n) = search (follows_rules, Follows-reap_expired, reap_ticks-Follows n)

  pub Follows-run : (ticks : ℕ) → Follows (row_history r) (run env has_manager ticks)
  unfolding run
  Follows-run ticks = search (follows_rules, Follows-reconcile, reap_ticks-Follows)
