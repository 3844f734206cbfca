-- ===== src/Store/Reads.antt =====
-- What GetSession returns, and what it leaves.
use sandkasten.Base.{◌≡◌, refl, Option, none, some, ◌∷◌}
use sandkasten.Base.Text.{Bytes}
use sandkasten.World.{Session, statement, World, Env, db_failed, Result, ok, err}
use sandkasten.World.Action.{◌>>=◌, gets, fail}
use sandkasten.Store.{checked, db_query, get_session, find_row}

-- The row, unless the driver answers with an error.
unfoldable pub found : Option Bytes → Option Session → Result (Option Session)
found none row = ok row
found (some text) row = err (db_failed text)

found_after :
    (id : Bytes) (w : World) (e : Option Bytes)
    → checked e (λ v. find_row id v.table) w ≡ (found e (find_row id w.table), w)
unfolding checked found gets fail
found_after id w none = refl
found_after id w (some text) = refl

pub get_session-found :
    (env : Env) (id : Bytes) (w : World)
    → get_session env id w ≡ (
      found (env.db_error (statement ∷ w.history)) (find_row id w.table),
      record w { history = statement ∷ w.history },
    )
unfolding get_session db_query ◌>>=◌
get_session-found env id w =
    let v : World = record w { history = statement ∷ w.history } in
    found_after id v (env.db_error v.history)
