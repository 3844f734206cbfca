-- ===== src/Pool/Rows.antt =====
-- The pool's operations, as changes of rows.
use sandkasten.Base.{ℕ, zero, suc, Option, none, some, List}
use sandkasten.Base.Int.{ℤ}
use sandkasten.Base.Text.{Bytes}
use sandkasten.World.{Sandbox, Env, Result, ok, err}
use sandkasten.World.Action.{modify}
use sandkasten.World.Action.Follows.{Follows, Follows-modify, follows_rules}
use sandkasten.Store.RowHistory.{RowRelation, row_history, KeepsRows-refl, Follows-create_session}
use sandkasten.Pool.{
  Pool, set_idle, take_last, get, put_idle, stock, refill_one, refill_rounds, refill_up_to, refill,
}

module _ (r : RowRelation) where
  set_idle-Follows :
      (key : Bytes) (ids : List Bytes) → Follows (row_history r) (modify (set_idle key ids))
  unfolding set_idle
  set_idle-Follows key ids = Follows-modify _ (λ w. KeepsRows-refl r w)

  take_last-Follows :
      (key : Bytes) (o : Option (List Bytes × Bytes)) → Follows (row_history r) (take_last key o)
  unfolding take_last
  take_last-Follows key none = search follows_rules
  take_last-Follows key (some (front, last)) = search (follows_rules, set_idle-Follows)

  pub Follows-get :
      (p : Pool) (image workspace : Bytes) → Follows (row_history r) (get p image workspace)
  unfolding get
  Follows-get p image workspace = search (follows_rules, take_last-Follows)

  module _ (env : Env) (p : Pool) where
    put_idle-Follows :
        (key id : Bytes) (x : Result (Unit {0})) → Follows (row_history r) (put_idle env p key id x)
    unfolding put_idle set_idle
    put_idle-Follows key id (err e) = search follows_rules
    put_idle-Follows key id (ok _) = Follows-modify _ (λ w. KeepsRows-refl r w)

    stock-Follows :
        (image workspace id : Bytes) (o : Option Sandbox)
        → Follows (row_history r) (stock env p image workspace id o)
    unfolding stock
    stock-Follows image workspace id none = search follows_rules
    stock-Follows image workspace id (some sandbox) =
        search (follows_rules, Follows-create_session r env, put_idle-Follows) depth 8

    refill_one-Follows :
        (image workspace : Bytes) → Follows (row_history r) (refill_one env p image workspace)
    unfolding refill_one
    refill_one-Follows image workspace = search (follows_rules, stock-Follows)

    refill_rounds-Follows :
        (n : ℕ) (image workspace : Bytes)
        → Follows (row_history r) (refill_rounds env p n image workspace)
    unfolding refill_rounds
    refill_rounds-Follows zero image workspace = search follows_rules
    refill_rounds-Follows (suc n) image workspace =
        search (follows_rules, refill_one-Follows, refill_rounds-Follows n image workspace) depth 8

    refill_up_to-Follows :
        (image workspace : Bytes) (o : Option ℤ)
        → Follows (row_history r) (refill_up_to env p image workspace o)
    unfolding refill_up_to
    refill_up_to-Follows image workspace none = search follows_rules
    refill_up_to-Follows image workspace (some n) = search (follows_rules, refill_rounds-Follows)

    pub Follows-refill :
        (image workspace : Bytes) (count : ℤ)
        → Follows (row_history r) (refill env p image workspace count)
    unfolding refill
    Follows-refill image workspace count = refill_up_to-Follows image workspace _
