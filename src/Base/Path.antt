-- ===== src/Base/Path.antt =====
-- The functions IsAbs, Clean and Join of Go's path/filepath on Unix, over bytes.
pub mod Rooted
pub mod Joined
pub mod Relative
use sandkasten.Base.Tests.{◌==◌, if◌then◌else◌}
use sandkasten.Base.Text.{Bytes, codes, str_eq}
use Prim.Native.Nat.{ℕ}
use mathlib.Core.Bool.{Bool, true, false, ◌&&◌, ◌||◌, not}
use mathlib.Core.Path.{◌≡◌, refl}
use mathlib.Core.List.{List, [], ◌∷◌, ◌++◌, reverse}

abbrev pub slash : ℕ
slash = b'/'

abbrev pub dot : Bytes
dot = b'.' ∷ []

abbrev pub dot_dot : Bytes
dot_dot = b'.' ∷ b'.' ∷ []

-- strings.Split by one byte.
abbrev extend : ℕ → List Bytes → List Bytes
extend c [] = (c ∷ []) ∷ []
extend c (p ∷ ps) = (c ∷ p) ∷ ps

unfoldable pub split : ℕ → Bytes → List Bytes
split sep [] = [] ∷ []
split sep (c ∷ s) = let rest = split sep s in if c == sep then [] ∷ rest else extend c rest

unfoldable pub is_abs : Bytes → Bool
is_abs [] = false
is_abs (c ∷ s) = c == slash

-- What `..` leaves of the elements kept so far, the last first.
unfoldable pub step_back : Bool → List Bytes → List Bytes
step_back true [] = []
step_back true (top ∷ below) = below
step_back false [] = dot_dot ∷ []
step_back false (top ∷ below) = if str_eq top dot_dot then dot_dot ∷ top ∷ below else below

unfoldable pub keep_element : Bool → List Bytes → Bytes → List Bytes
keep_element rooted out c =
    if str_eq c [] || str_eq c dot
    then out
    else if str_eq c dot_dot
    then step_back rooted out
    else c ∷ out

unfoldable pub keep_elements : Bool → List Bytes → List Bytes → List Bytes
keep_elements rooted out [] = out
keep_elements rooted out (c ∷ cs) = keep_elements rooted (keep_element rooted out c) cs

-- Every element behind a slash.
unfoldable pub slashed : List Bytes → Bytes
slashed [] = []
slashed (c ∷ cs) = slash ∷ (c ++ slashed cs)

abbrev pub render_rooted : List Bytes → Bytes
render_rooted [] = slash ∷ []
render_rooted (c ∷ cs) = slashed (c ∷ cs)

abbrev render_relative : List Bytes → Bytes
render_relative [] = dot
render_relative (c ∷ cs) = c ++ slashed cs

-- filepath.Clean
unfoldable pub clean : Bytes → Bytes
unfolding split keep_element keep_elements step_back slashed is_abs str_eq
clean p =
    let kept = reverse (keep_elements (is_abs p) [] (split slash p)) in
    if is_abs p then render_rooted kept else render_relative kept

-- filepath.Join of two elements.
unfoldable pub join : Bytes → Bytes → Bytes
unfolding clean
join [] [] = []
join [] (c ∷ q) = clean (c ∷ q)
join (b ∷ p) [] = clean (b ∷ p)
join (b ∷ p) (c ∷ q) = clean ((b ∷ p) ++ slash ∷ c ∷ q)

-- filepath.Base: the last element that is not empty.
unfoldable pub last_element : Bytes → List Bytes → Bytes
last_element out [] = out
last_element out (c ∷ cs) = last_element (if str_eq c [] then out else c) cs

unfoldable pub base : Bytes → Bytes
unfolding last_element split
base [] = dot
base (c ∷ p) = last_element (slash ∷ []) (split slash (c ∷ p))

-- filepath.Dir: what stands up to the last slash, cleaned.
abbrev keep_front : ℕ → Bytes → Bytes
keep_front c [] = if c == slash then c ∷ [] else []
keep_front c (d ∷ s) = c ∷ d ∷ s

unfoldable pub up_to_slash : Bytes → Bytes
up_to_slash [] = []
up_to_slash (c ∷ s) = keep_front c (up_to_slash s)

unfoldable pub dir : Bytes → Bytes
unfolding up_to_slash clean
dir p = clean (up_to_slash p)

join_up : join (codes "/workspace") (codes "../etc//x/./y") ≡ codes "/etc/x/y"
unfolding join
join_up = refl
