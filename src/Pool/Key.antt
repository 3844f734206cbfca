-- ===== src/Pool/Key.antt =====
-- The pool's keys (poolKey, and the split of a key in RefillAll).
use sandkasten.Base.{◌≡◌, sym, ap, ◌∙◌, false}
use sandkasten.Base.Text.{Bytes, has_byte, before, after, before-append, after-append}
use sandkasten.Pool.{pool_key, bar}

-- Two requests share a pool key only if they name one image and one workspace, as long as no image
-- name holds the separator.
pub pool_key-injective :
    (image image' workspace workspace' : Bytes)
    → has_byte bar image ≡ false
    → has_byte bar image' ≡ false
    → pool_key image workspace ≡ pool_key image' workspace'
    → (image ≡ image') × (workspace ≡ workspace')
unfolding pool_key
pool_key-injective image image' workspace workspace' h h' e = (
  sym (before-append bar image workspace h)
      ∙ ap (before bar) e
      ∙ before-append bar image' workspace' h',
  cc (after-append bar image workspace h, after-append bar image' workspace' h', ap (after bar) e),
)

-- RefillAll gets back the image of a key that `New` made.
pub before-pool_key :
    (image workspace : Bytes)
    → has_byte bar image ≡ false
    → before bar (pool_key image workspace) ≡ image
unfolding pool_key
before-pool_key image workspace h = before-append bar image workspace h
