-- ===== src/Session/Images.antt =====
-- The image policy: what a name that isImageNameSafe accepts looks like (internal/session/manager.go).
use sandkasten.Base.{ℕ, ◌≤◌, ◌≡◌, ◌≢◌, refl, Bool, true, false, [], ◌∷◌, length, arith, ltb}
use sandkasten.Base.Text.{Bytes, str_eq, str_eq_iff, has_byte}
use sandkasten.Pool.{bar, pool_key}
use sandkasten.Pool.Key.{pool_key-injective}
use sandkasten.Session.{is_name_byte, all_bytes, matches_name, is_image_name_safe}

has_byte-all_bytes :
    (p : ℕ → Bool) (b : ℕ) (s : Bytes) → p b ≡ false → all_bytes p s ≡ true → has_byte b s ≡ false
unfolding all_bytes has_byte
has_byte-all_bytes p b [] h e = refl
has_byte-all_bytes p b (c ∷ s) h e = ground (arith, has_byte-all_bytes p b s h)

-- A byte that no name has.
pub has_byte-matches_name :
    (b : ℕ) (s : Bytes) → is_name_byte b ≡ false → matches_name s ≡ true → has_byte b s ≡ false
unfolding matches_name has_byte
has_byte-matches_name b [] h e = refl
has_byte-matches_name b (c ∷ s) h e = ground (arith, has_byte-all_bytes is_name_byte b s h)

safe_parts :
    (image : Bytes)
    → is_image_name_safe image ≡ true
    → (str_eq image [] ≡ false) × (ltb 64 (length image) ≡ false) × (matches_name image ≡ true)
unfolding is_image_name_safe
safe_parts image h = ground arith

-- What isImageNameSafe accepts is 1 to 64 bytes long and holds no byte but ASCII letters, digits,
-- `-` and `_`: no path separator, no dot, and no separator of pool keys.
pub is_image_name_safe_bytes :
    (image : Bytes) (b : ℕ)
    → is_image_name_safe image ≡ true
    → is_name_byte b ≡ false
    → (has_byte b image ≡ false) × (image ≢ []) × (length image ≤ 64)
is_image_name_safe_bytes image b safe other =
    let (nonempty, short, matches) = safe_parts image safe in
    (
      has_byte-matches_name b image other matches,
      (λ e. cc (nonempty, (str_eq_iff image []).1 e)),
      ground arith,
    )

-- Requests for images that the manager accepts never share an idle list by accident: one pool key
-- means one image and one workspace.
pub pool_key_safe :
    (image image' workspace workspace' : Bytes)
    → is_image_name_safe image ≡ true
    → is_image_name_safe image' ≡ true
    → pool_key image workspace ≡ pool_key image' workspace'
    → (image ≡ image') × (workspace ≡ workspace')
unfolding is_name_byte
pool_key_safe image image' workspace workspace' safe safe' =
    pool_key-injective image image' workspace workspace'
      (is_image_name_safe_bytes image bar safe refl).0
      (is_image_name_safe_bytes image' bar safe' refl).0
