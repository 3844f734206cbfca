-- ===== src/Base/Text.antt =====
-- Go strings as lists of bytes, and the functions of the package strings that the program calls.
use sandkasten.Base.Tests.{◌==◌, if◌then◌else◌}
use sandkasten.Base.Lists.{length, drop, drop-length}
use Prim.Native.Nat.{ℕ, suc}
use Prim.Native.Char.{code}
use Prim.Native.String.{String}
use mathlib.Core.Path.{◌≡◌, refl}
use mathlib.Core.Logic.{◌↔◌}
use mathlib.Core.Bool.{Bool, true, false, ◌&&◌, ◌||◌}
use mathlib.Core.Option.{Option, none, some}
use mathlib.Core.List.{List, [], ◌∷◌, ◌++◌}
use native.Mathlib.Omega.{arith}

abbrev pub Bytes : Type 0
Bytes = List ℕ

-- The bytes of an ASCII literal.
abbrev pub codes : String → Bytes
codes String.[] = []
codes (String.◌∷◌ c s) = code c ∷ codes s

unfoldable pub str_eq : Bytes → Bytes → Bool
str_eq [] [] = true
str_eq [] (y ∷ ys) = false
str_eq (x ∷ xs) [] = false
str_eq (x ∷ xs) (y ∷ ys) = x == y && str_eq xs ys

pub str_eq_refl : (s : Bytes) → str_eq s s ≡ true
unfolding str_eq
str_eq_refl [] = refl
str_eq_refl (x ∷ xs) = ground (arith, str_eq_refl xs)

pub eq_of_str_eq : (s t : Bytes) → str_eq s t ≡ true → s ≡ t
unfolding str_eq
eq_of_str_eq [] [] h = refl
eq_of_str_eq [] (y ∷ ys) h = cc
eq_of_str_eq (x ∷ xs) [] h = cc
eq_of_str_eq (x ∷ xs) (y ∷ ys) h = ground (arith, eq_of_str_eq xs ys)

pub str_eq_iff : (s t : Bytes) → (str_eq s t ≡ true) ↔ (s ≡ t)
str_eq_iff s t = (eq_of_str_eq s t, λ e. ground (arith, str_eq_refl t))

-- strings.HasPrefix(s, p), the prefix first.
unfoldable pub has_prefix : Bytes → Bytes → Bool
has_prefix [] s = true
has_prefix (x ∷ p) [] = false
has_prefix (x ∷ p) (y ∷ s) = x == y && has_prefix p s

-- strings.TrimPrefix(s, p), the prefix first.
unfoldable pub trim_prefix : Bytes → Bytes → Bytes
trim_prefix p s = if has_prefix p s then drop (length p) s else s

pub has_prefix-append : (p s : Bytes) → has_prefix p (p ++ s) ≡ true
unfolding has_prefix
has_prefix-append [] s = refl
has_prefix-append (x ∷ p) s = ground (arith, has_prefix-append p s)

pub trim_prefix-append : (p s : Bytes) → trim_prefix p (p ++ s) ≡ s
unfolding trim_prefix
trim_prefix-append p s = rw (has_prefix-append p s) (drop-length p s)

-- strings.TrimRight with one byte to cut, the byte first.
abbrev put_unless : ℕ → ℕ → Bytes → Bytes
put_unless b c [] = if c == b then [] else c ∷ []
put_unless b c (d ∷ s) = c ∷ d ∷ s

unfoldable pub trim_right : ℕ → Bytes → Bytes
trim_right b [] = []
trim_right b (c ∷ s) = put_unless b c (trim_right b s)

-- strings.TrimLeft with one byte to cut.
unfoldable pub trim_left : ℕ → Bytes → Bytes
trim_left b [] = []
trim_left b (c ∷ s) = if c == b then trim_left b s else c ∷ s

-- strings.Index(s, sep) of a text that is not empty, the text that is looked for first.
abbrev one_later : Option ℕ → Option ℕ
one_later none = none
one_later (some i) = some (suc i)

unfoldable pub index? : Bytes → Bytes → Option ℕ
unfolding has_prefix
index? sep [] = if has_prefix sep [] then some 0 else none
index? sep (c ∷ s) =
    let later = one_later (index? sep s) in if has_prefix sep (c ∷ s) then some 0 else later

-- strings.Contains(s, sep), the text that is looked for first.
unfoldable pub contains : Bytes → Bytes → Bool
unfolding has_prefix
contains sep [] = has_prefix sep []
contains sep (c ∷ s) = has_prefix sep (c ∷ s) || contains sep s

-- A byte occurs in a text.
unfoldable pub has_byte : ℕ → Bytes → Bool
has_byte b [] = false
has_byte b (c ∷ s) = c == b || has_byte b s

-- strings.Cut at the first byte `sep`: what stands before it, and what stands after it if it occurs.
unfoldable pub before : ℕ → Bytes → Bytes
before sep [] = []
before sep (c ∷ s) = if c == sep then [] else c ∷ before sep s

unfoldable pub after : ℕ → Bytes → Option Bytes
after sep [] = none
after sep (c ∷ s) = if c == sep then some s else after sep s

pub before-append : (sep : ℕ) (s t : Bytes) → has_byte sep s ≡ false → before sep (s ++ sep ∷ t) ≡ s
unfolding before has_byte
before-append sep [] t h = ground arith
before-append sep (c ∷ s) t h = ground (arith, before-append sep s t)

pub after-append :
    (sep : ℕ) (s t : Bytes) → has_byte sep s ≡ false → after sep (s ++ sep ∷ t) ≡ some t
unfolding after has_byte
after-append sep [] t h = ground arith
after-append sep (c ∷ s) t h = ground (arith, after-append sep s t)

pub after-none : (sep : ℕ) (s : Bytes) → has_byte sep s ≡ false → after sep s ≡ none
unfolding after has_byte
after-none sep [] h = refl
after-none sep (c ∷ s) h = ground (arith, after-none sep s)

pub has_byte-append :
    (b : ℕ) (s t : Bytes)
    → has_byte b s ≡ false
    → has_byte b t ≡ false
    → has_byte b (s ++ t) ≡ false
unfolding has_byte
has_byte-append b [] t h k = k
has_byte-append b (c ∷ s) t h k = ground (arith, has_byte-append b s t)

pub trim_right-last : (b : ℕ) (s : Bytes) → trim_right b (s ++ b ∷ []) ≡ trim_right b s
unfolding trim_right
trim_right-last b [] = ground arith
trim_right-last b (c ∷ s) = rw (trim_right-last b s) refl

pub trim_right-none : (b : ℕ) (s : Bytes) → has_byte b s ≡ false → trim_right b s ≡ s
unfolding trim_right has_byte
trim_right-none b [] h = refl
trim_right-none b (c ∷ []) h = ground arith
trim_right-none b (c ∷ d ∷ s) h = rw (trim_right-none b (d ∷ s) (ground arith)) refl
