-- ===== src/Session/Files/Rows.antt =====
-- File reads and writes, as changes of rows.
use sandkasten.Base.{Bool, Option, none, some}
use sandkasten.Base.Int.{ℤ}
use sandkasten.Base.Text.{Bytes}
use sandkasten.World.{Response, Env, Error}
use sandkasten.World.Action.Follows.{Follows, Preorder, follows_rules}
use sandkasten.Store.RowHistory.{RowRelation, row_history}
use sandkasten.Store.RowRules.{AllowsUse}
use sandkasten.Session.{Manager}
use sandkasten.Session.Validate.Rows.{Follows-validate_session, Follows-lease}
use sandkasten.Session.Files.{accept, write_file, read_file}

pub Follows-accept : {p : Preorder} (e : Error) (o : Option Response) → Follows p (accept e o)
unfolding accept
Follows-accept e none = search follows_rules
Follows-accept e (some resp) = search follows_rules

module _ (r : RowRelation) (a : AllowsUse r) (env : Env) (m : Manager) where
  pub Follows-write_file :
      (id path content : Bytes) (is_base64 : Bool)
      → Follows (row_history r) (write_file env m id path content is_base64)
  unfolding write_file
  Follows-write_file id path content is_base64 =
      search
        (follows_rules, Follows-validate_session r env m, Follows-accept, Follows-lease r env m a)

  pub Follows-read_file :
      (id path : Bytes) (max_bytes : ℤ)
      → Follows (row_history r) (read_file env m id path max_bytes)
  unfolding read_file
  Follows-read_file id path max_bytes =
      search
        (follows_rules, Follows-validate_session r env m, Follows-accept, Follows-lease r env m a)
        depth 8
