-- ===== src/Api/Auth.antt =====
-- internal/api/middleware.go: which requests pass, and on which credential.
use sandkasten.Base.{
  Bool, true, false, ◌&&◌, ◌||◌, not, Option, none, some, [], ◌++◌, if◌then◌else◌,
}
use sandkasten.Base.{length, drop, ◌-◌, leb}
use sandkasten.Base.Text.{Bytes, codes, str_eq, has_prefix, trim_prefix}

-- The methods that the checks tell apart.
pub data Method : Type 0 where
  get head post other : Method

-- What authMiddleware reads of a request: a missing header or parameter is the empty text, as in
-- net/http. The query is what is left without `api_key`, encoded.
pub record HttpRequest : Type 0 where
  pub method : Method
  pub path : Bytes
  pub authorization : Bytes
  pub cookie : Option Bytes
  pub api_key : Bytes
  pub query : Bytes

-- What becomes of a request: it goes to the next handler, the login sets the cookie and redirects,
-- or it is answered with 401.
pub data Verdict : Type 0 where
  serve : Verdict
  log_in : Bytes → Bytes → Verdict
  unauthorized : Verdict

-- strings.HasSuffix(s, p), the suffix first.
unfoldable pub has_suffix : Bytes → Bytes → Bool
has_suffix p s = leb (length p) (length s) && str_eq (drop (length s - length p) s) p

abbrev is_post : Method → Bool
is_post post = true
is_post _ = false

abbrev is_read : Method → Bool
is_read get = true
is_read head = true
is_read _ = false

abbrev is_get : Method → Bool
is_get get = true
is_get _ = false

-- The endings of the static assets.
unfoldable pub is_asset : Bytes → Bool
is_asset path =
    has_suffix (codes ".js") path
    || has_suffix (codes ".css") path
    || has_suffix (codes ".svg") path
    || has_suffix (codes ".png") path
    || has_suffix (codes ".ico") path
    || has_suffix (codes ".woff") path
    || has_suffix (codes ".woff2") path
    || has_suffix (codes ".ttf") path

-- path == p || strings.HasPrefix(path, p+"/")
abbrev at_or_below : Bytes → Bytes → Bool
at_or_below p path = str_eq path p || has_prefix (p ++ codes "/") path

-- isPublicPath
unfoldable pub is_public_path : Bytes → Method → Bool
is_public_path path method =
    if str_eq path (codes "/healthz") || str_eq path (codes "/") || has_prefix (codes "/_app/") path
    then true
    else (if str_eq path (codes "/dashboard/login") && is_post method
        then true
        else (if is_asset path
            then true
            else (if not (is_read method)
                then false
                else (at_or_below (codes "/sessions") path
                    || at_or_below (codes "/workspaces") path
                    || at_or_below (codes "/settings") path))))

-- The bearer token is the configured key.
unfoldable pub has_token : Bytes → Bytes → Bool
has_token key authorization =
    let token = trim_prefix (codes "Bearer ") authorization in
    not (str_eq token authorization) && str_eq token key

unfoldable pub has_cookie : Bytes → Option Bytes → Bool
has_cookie key none = false
has_cookie key (some value) = str_eq value key

abbrev redirect_url : HttpRequest → Bytes
redirect_url r = if str_eq r.query [] then r.path else r.path ++ codes "?" ++ r.query

-- (*Server).authMiddleware, for the configured APIKey.
unfoldable pub auth_middleware : Bytes → HttpRequest → Verdict
auth_middleware key r =
    if is_public_path r.path r.method
    then serve
    else (if str_eq key []
        then serve
        else (if has_token key r.authorization
            then serve
            else (if has_cookie key r.cookie
                then serve
                else (if is_get r.method && str_eq r.api_key key
                    then log_in key (redirect_url r)
                    else unauthorized))))
