-- ===== src/Store/Keys.antt =====
-- The primary key: what the row operations do to the row that a key finds, and that no statement
-- gives two rows one key.
use mathlib.Core.Option
use sandkasten.Base.{◌≡◌, refl, none, some, ◌∷◌, [], ◌++◌, arith, if◌then◌else◌}
use sandkasten.Base.Text.{Bytes, str_eq, str_eq_iff}
use sandkasten.World.{Session}
use sandkasten.Store.{Table, find_row, insert_row, update_row, delete_row}

module _ (id j : Bytes) (f : Session → Session) (same : (s : Session) → (f s).id ≡ s.id) where
  -- An UPDATE of one row is seen at its key and at no other.
  pub find_row-update_row :
      (t : Table)
      → find_row j (update_row id f t)
        ≡ (if str_eq id j then Option.map f (find_row id t) else find_row j t)
  unfolding find_row update_row
  find_row-update_row [] = ground arith
  find_row-update_row (s ∷ t) = ground (
    arith,
    same s,
    str_eq_iff s.id id,
    str_eq_iff s.id j,
    str_eq_iff id j,
    str_eq_iff (f s).id j,
    find_row-update_row t,
  )

pub find_row-append :
    (j : Bytes) (s : Session) (t : Table)
    → find_row j (t ++ s ∷ [])
      ≡ elim (find_row j t) [ none ↦ if str_eq s.id j then some s else none | some r ↦ some r ]
unfolding find_row
find_row-append j s [] = refl
find_row-append j s (r ∷ t) = ground (arith, find_row-append j s t)

-- An INSERT that is carried out is seen at its key, which was free, and at no other.
pub find_row-insert_row :
    (j : Bytes) (s : Session) (t u : Table)
    → insert_row s t ≡ some u
    → (find_row s.id t ≡ none) × (find_row j u ≡ (if str_eq s.id j then some s else find_row j t))
unfolding insert_row
find_row-insert_row j s t u e = ground (arith, find_row-append j s t, str_eq_iff s.id j)

-- No two rows have one key.
abbrev pub IsKeyed : Table → Type 0
IsKeyed [] = Unit {0}
IsKeyed (s ∷ t) = (find_row s.id t ≡ none) × IsKeyed t

-- The row that a key finds has that key.
pub id-find_row : (j : Bytes) (t : Table) (s : Session) → find_row j t ≡ some s → s.id ≡ j
unfolding find_row
id-find_row j [] s e = cc
id-find_row j (r ∷ t) s e = ground (arith, str_eq_iff r.id j, id-find_row j t s)

pub update_row-IsKeyed :
    (id : Bytes) (f : Session → Session) (same : (s : Session) → (f s).id ≡ s.id) (t : Table)
    → IsKeyed t
    → IsKeyed (update_row id f t)
unfolding update_row
update_row-IsKeyed id f same [] k = tt
update_row-IsKeyed id f same (s ∷ t) k = ground (
  arith,
  same s,
  update_row-IsKeyed id f same t,
  find_row-update_row id s.id f same t,
  str_eq_iff s.id id,
  str_eq_iff id s.id,
)

append-IsKeyed :
    (s : Session) (t : Table) → find_row s.id t ≡ none → IsKeyed t → IsKeyed (t ++ s ∷ [])
unfolding find_row
append-IsKeyed s [] h k = (refl, tt)
append-IsKeyed s (r ∷ t) h k = ground (
  arith,
  append-IsKeyed s t,
  find_row-append r.id s t,
  str_eq_iff r.id s.id,
  str_eq_iff s.id r.id,
)

pub insert_row-IsKeyed :
    (s : Session) (t u : Table) → insert_row s t ≡ some u → IsKeyed t → IsKeyed u
unfolding insert_row
insert_row-IsKeyed s t u e k = ground (arith, append-IsKeyed s t)

find_row-delete_row :
    (id j : Bytes) (t : Table)
    → find_row j (delete_row id t) ≡ (if str_eq id j then none else find_row j t)
unfolding find_row delete_row
find_row-delete_row id j [] = ground arith
find_row-delete_row id j (s ∷ t) =
    ground
      (arith, str_eq_iff s.id id, str_eq_iff s.id j, str_eq_iff id j, find_row-delete_row id j t)

pub delete_row-IsKeyed : (id : Bytes) (t : Table) → IsKeyed t → IsKeyed (delete_row id t)
unfolding delete_row
delete_row-IsKeyed id [] k = tt
delete_row-IsKeyed id (s ∷ t) k =
    ground (arith, delete_row-IsKeyed id t, find_row-delete_row id s.id t, str_eq_iff id s.id)
