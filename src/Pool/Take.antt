-- ===== src/Pool/Take.antt =====
-- What Get takes from the pool.
use sandkasten.Base.{
  ◌≡◌, refl, ◌⊎◌, inl, inr, true, false, Option, none, some, List, [], ◌∷◌, ◌++◌, Bool-cases,
}
use sandkasten.Base.Text.{Bytes}
use sandkasten.World.{World, Result, ok}
use sandkasten.World.Action.{pure, gets, modify, ◌>>=◌}
use sandkasten.Pool.{Pool, pool_key, is_served, split_last, take_last, set_idle, get}

-- The last id of the key's list and the list without it; or nothing, because the pool does not serve
-- the key or its list is empty.
pub data Taken (p : Pool) (image workspace : Bytes) (w : World) (r : Result (Option Bytes) × World)
    : Type 0 where
  taken :
      (front : List Bytes) (id : Bytes)
      → is_served p image workspace ≡ true
      → w.idle (pool_key image workspace) ≡ front ++ id ∷ []
      → r ≡ (ok (some id), set_idle (pool_key image workspace) front w)
      → Taken p image workspace w r
  nothing :
      (is_served p image workspace ≡ false) ⊎ (w.idle (pool_key image workspace) ≡ [])
      → r ≡ (ok none, w)
      → Taken p image workspace w r

-- A list is empty, or what split_last gives, put together.
data Split (xs : List Bytes) (o : Option (List Bytes × Bytes)) : Type 0 where
  empty : xs ≡ [] → o ≡ none → Split xs o
  ends :
      (front : List Bytes) (last : Bytes)
      → xs ≡ front ++ last ∷ []
      → o ≡ some (front, last)
      → Split xs o

split_last-Split : (xs : List Bytes) → Split xs (split_last xs)
unfolding split_last
split_last-Split [] = empty refl refl
split_last-Split (x ∷ xs) = more (split_last-Split xs)
  where
    more : Split xs (split_last xs) → Split (x ∷ xs) (split_last (x ∷ xs))
    more (empty e q) = ends [] x (rw e refl) (rw q refl)
    more (ends front last e q) = ends (x ∷ front) last (rw e refl) (rw q refl)

served :
    (p : Pool) (image workspace : Bytes) (w : World)
    → is_served p image workspace ≡ true
    → Split (w.idle (pool_key image workspace)) (split_last (w.idle (pool_key image workspace)))
    → Taken p image workspace w (get p image workspace w)
unfolding get take_last ◌>>=◌ pure gets modify
served p image workspace w s (empty e q) = nothing (inr e) (rw (s, q) refl)
served p image workspace w s (ends front last e q) = taken front last s e (rw (s, q) refl)

-- Get takes the session that was put into the key's list last, and removes it and nothing else; or it
-- takes none and changes nothing, and then the key is not served or its list is empty.
pub get-Taken :
    (p : Pool) (image workspace : Bytes) (w : World)
    → Taken p image workspace w (get p image workspace w)
unfolding get pure
get-Taken p image workspace w = elim (Bool-cases (is_served p image workspace)) [
  | inl s ↦ served p image workspace w s (split_last-Split (w.idle (pool_key image workspace)))
  | inr s ↦ nothing (inl s) (rw s refl)
]
