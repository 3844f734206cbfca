-- ===== src/Store/Rows.antt =====
-- The rows of the table `sessions`, whose primary key is `id`: what the statements of store.go do.
use sandkasten.Base.{
  ℕ, suc, Bool, ◌&&◌, Option, none, some, List, [], ◌∷◌, ◌++◌, ◌==◌, if◌then◌else◌,
}
use sandkasten.Base.Int.{ℤ, leb_ℤ, ltb_ℤ}
use sandkasten.Base.Text.{Bytes, str_eq}
use sandkasten.World.{Session, Status, running, pool_idle, destroying, destroyed, expired, crashed}

abbrev pub Table : Type 0
Table = List Session

abbrev status_code : Status → ℕ
status_code running = 0
status_code pool_idle = 1
status_code destroying = 2
status_code destroyed = 3
status_code expired = 4
status_code crashed = 5

abbrev pub status_eq : Status → Status → Bool
status_eq a b = status_code a == status_code b

-- SELECT … WHERE id = ?
unfoldable pub find_row : Bytes → Table → Option Session
find_row id [] = none
find_row id (s ∷ t) = if str_eq s.id id then some s else find_row id t

-- INSERT INTO sessions, unless the primary key is taken.
unfoldable pub insert_row : Session → Table → Option Table
insert_row s t = elim (find_row s.id t) [ none ↦ some (t ++ s ∷ []) | some _ ↦ none ]

-- UPDATE sessions SET … WHERE id = ?
unfoldable pub update_row : Bytes → (Session → Session) → Table → Table
update_row id f [] = []
update_row id f (s ∷ t) = (if str_eq s.id id then f s else s) ∷ update_row id f t

-- DELETE FROM sessions WHERE id = ?
unfoldable pub delete_row : Bytes → Table → Table
delete_row id [] = []
delete_row id (s ∷ t) = let rest = delete_row id t in if str_eq s.id id then rest else s ∷ rest

-- The rows that an UPDATE or DELETE affects.
unfoldable pub count_rows : Bytes → Table → ℕ
count_rows id [] = 0
count_rows id (s ∷ t) = let rest = count_rows id t in if str_eq s.id id then suc rest else rest

-- SELECT … WHERE status = 'running', and the same with AND expires_at <= ?
unfoldable pub running_rows : Table → Table
running_rows [] = []
running_rows (s ∷ t) =
    let rest = running_rows t in if status_eq s.status running then s ∷ rest else rest

unfoldable pub expired_rows : ℤ → Table → Table
expired_rows now [] = []
expired_rows now (s ∷ t) =
    let rest = expired_rows now t in
    if status_eq s.status running && leb_ℤ s.expires_at now then s ∷ rest else rest

-- SELECT … ORDER BY created_at DESC
unfoldable pub place_row : Session → Table → Table
place_row s [] = s ∷ []
place_row s (r ∷ t) =
    let later = r ∷ place_row s t in if ltb_ℤ r.created_at s.created_at then s ∷ r ∷ t else later

unfoldable pub newest_first : Table → Table
unfolding place_row
newest_first [] = []
newest_first (s ∷ t) = place_row s (newest_first t)
