-- ===== src/Api/Access.antt =====
-- internal/api/middleware.go: what a request must carry to pass.
use sandkasten.Base.{
  true, false, Option, none, some, [], ◌∷◌, ◌++◌, ◌≡◌, refl, ◌⊎◌, inl, inr, length, drop, ap,
  Bool-cases, arith, ◌≢◌,
}
use sandkasten.Base.Text.{Bytes, codes, str_eq, str_eq_iff, has_prefix, trim_prefix}
use sandkasten.Api.Auth.{HttpRequest, serve, is_public_path, has_token, has_cookie, auth_middleware}

-- A request shows the key: as the bearer token, or in the dashboard's cookie.
pub data Shows (key : Bytes) (r : HttpRequest) : Type 0 where
  bearer : r.authorization ≡ codes "Bearer " ++ key → Shows key r
  cookie : r.cookie ≡ some key → Shows key r

pub has_prefix-append : (p s : Bytes) → has_prefix p s ≡ true → s ≡ p ++ drop (length p) s
unfolding has_prefix
has_prefix-append [] s h = refl
has_prefix-append (x ∷ p) [] h = cc
has_prefix-append (x ∷ p) (y ∷ s) h = ground (arith, has_prefix-append p s)

trim_prefix-append :
    (p s t : Bytes) → str_eq (trim_prefix p s) s ≡ false → trim_prefix p s ≡ t → s ≡ p ++ t
unfolding trim_prefix
trim_prefix-append p s t h e = ground (arith, has_prefix-append p s, str_eq_iff s s)

shows_cookie : (key : Bytes) (c : Option Bytes) → has_cookie key c ≡ true → c ≡ some key
unfolding has_cookie
shows_cookie key none h = cc
shows_cookie key (some value) h = ap some ((str_eq_iff value key).0 h)

shows_token : (key auth : Bytes) → has_token key auth ≡ true → auth ≡ codes "Bearer " ++ key
unfolding has_token
shows_token key auth h =
    trim_prefix-append (codes "Bearer ") auth key (ground arith)
      ((str_eq_iff (trim_prefix (codes "Bearer ") auth) key).0 (ground arith))

-- With a key configured, authMiddleware hands a request on only if its path and method are public,
-- or the request shows that very key: "Bearer " and the key as the whole Authorization header, or
-- the key as the cookie's value.
pub auth_middleware-serve :
    (key : Bytes) (r : HttpRequest)
    → key ≢ []
    → auth_middleware key r ≡ serve
    → (is_public_path r.path r.method ≡ true) ⊎ Shows key r
unfolding auth_middleware
auth_middleware-serve key r ne h = elim (Bool-cases (is_public_path r.path r.method)) [
  | inl e ↦ inl e
  | inr e ↦ elim (Bool-cases (has_token key r.authorization)) [
    | inl t ↦ inr (bearer (shows_token key r.authorization t))
    | inr t ↦ inr (cookie (shows_cookie key r.cookie (ground (arith, str_eq_iff key []))))
  ]
]
