-- ===== src/Base/Path/Rooted.antt =====
-- What Clean makes of an absolute path: plain elements behind slashes.
use sandkasten.Base.Tests.{Bool-cases, ◌==◌, if◌then◌else◌}
use sandkasten.Base.Lists.{All, All-append}
use sandkasten.Base.Text.{Bytes, str_eq, has_byte, has_prefix}
use sandkasten.Base.Path.{
  slash, dot, dot_dot, split, extend, step_back, keep_element, keep_elements, slashed,
  render_rooted, is_abs, clean,
}
use Prim.Native.Nat.{ℕ}
use mathlib.Core.Path.{◌≡◌, refl, ap}
use mathlib.Core.Logic.{inl, inr}
use mathlib.Core.Bool.{Bool, true, false, ◌||◌}
use mathlib.Core.List.{List, [], ◌∷◌, ◌++◌, reverse, reverse-cons}
use native.Mathlib.Omega.{arith}

-- A path element that names an entry of its directory.
pub record IsPlain (c : Bytes) : Type 0 where
  pub no_slash : has_byte slash c ≡ false
  pub nonempty : str_eq c [] ≡ false
  pub no_dot : str_eq c dot ≡ false
  pub no_dot_dot : str_eq c dot_dot ≡ false

abbrev pub Lacks : Bytes → Type 0
Lacks c = has_byte slash c ≡ false

extend-Lacks :
    (c : ℕ) (ps : List Bytes) → (c == slash) ≡ false → All Lacks ps → All Lacks (extend c ps)
unfolding has_byte
extend-Lacks c [] h a = ground arith
extend-Lacks c (p ∷ ps) h a = (ground arith, a.1)

pub split-Lacks : (s : Bytes) → All Lacks (split slash s)
unfolding split
split-Lacks [] = unfold has_byte in (refl, tt)
split-Lacks (c ∷ s) = elim (Bool-cases (c == slash)) [
  | inl e ↦ rw e (unfold has_byte in refl, split-Lacks s)
  | inr e ↦ rw e (extend-Lacks c (split slash s) e (split-Lacks s))
]

step_back-IsPlain : (out : List Bytes) → All IsPlain out → All IsPlain (step_back true out)
unfolding step_back
step_back-IsPlain [] a = tt
step_back-IsPlain (top ∷ below) a = a.1

All-if :
    (b : Bool) (xs ys : List Bytes)
    → (b ≡ true → All IsPlain xs)
    → (b ≡ false → All IsPlain ys)
    → All IsPlain (if b then xs else ys)
All-if true xs ys h k = h refl
All-if false xs ys h k = k refl

pub element-IsPlain :
    (c : Bytes)
    → (str_eq c [] || str_eq c dot) ≡ false
    → str_eq c dot_dot ≡ false
    → Lacks c
    → IsPlain c
element-IsPlain c e f h = record {
  no_slash = h;
  nonempty = ground arith;
  no_dot = ground arith;
  no_dot_dot = f;
}

keep_element-IsPlain :
    (out : List Bytes) (c : Bytes)
    → All IsPlain out
    → Lacks c
    → All IsPlain (keep_element true out c)
unfolding keep_element
keep_element-IsPlain out c a h =
    All-if _ out _ (λ _. a)
      λ e.
        All-if _ (step_back true out) (c ∷ out) (λ _. step_back-IsPlain out a)
          (λ f. (element-IsPlain c e f h, a))

keep_elements-IsPlain :
    (out cs : List Bytes) → All IsPlain out → All Lacks cs → All IsPlain (keep_elements true out cs)
unfolding keep_elements
keep_elements-IsPlain out [] a h = a
keep_elements-IsPlain out (c ∷ cs) a (h, hs) =
    keep_elements-IsPlain (keep_element true out c) cs (keep_element-IsPlain out c a h) hs

reverse-IsPlain : (cs : List Bytes) → All IsPlain cs → All IsPlain (reverse cs)
reverse-IsPlain [] a = tt
reverse-IsPlain (c ∷ cs) a =
    rw (reverse-cons c cs)
      (All-append IsPlain (reverse cs) (c ∷ []) (reverse-IsPlain cs a.1) (a.0, tt))

-- Clean makes of an absolute path its plain elements behind slashes: no element is empty, `.` or `..`,
-- and none holds a slash.
pub clean_rooted :
    (p : Bytes)
    → is_abs p ≡ true
    → (cs : List Bytes) × All IsPlain cs × (clean p ≡ render_rooted cs)
unfolding clean
clean_rooted p h =
    let kept = reverse (keep_elements true [] (split slash p)) in
    (
      kept,
      reverse-IsPlain (keep_elements true [] (split slash p))
          (keep_elements-IsPlain [] (split slash p) tt (split-Lacks p)),
      rw h refl,
    )

-- The first element of a cleaned path that begins with an element and a slash, or is that element.
first_element :
    (a c rest : Bytes)
    → has_byte slash a ≡ false
    → has_byte slash c ≡ false
    → has_prefix (a ++ slash ∷ []) (c ++ slash ∷ rest) ≡ true
    → c ≡ a
unfolding has_prefix has_byte
first_element [] [] rest ha hc h = refl
first_element [] (y ∷ c) rest ha hc h = ground arith
first_element (x ∷ a) [] rest ha hc h = ground arith
first_element (x ∷ a) (y ∷ c) rest ha hc h = ground (arith, first_element a c rest)

only_element :
    (a c : Bytes) → has_byte slash c ≡ false → has_prefix (a ++ slash ∷ []) (c ++ []) ≡ false
unfolding has_prefix has_byte
only_element [] [] h = refl
only_element [] (y ∷ c) h = ground arith
only_element (x ∷ a) [] h = refl
only_element (x ∷ a) (y ∷ c) h = ground (arith, only_element a c)

same_element :
    (a c : Bytes) (cs : List Bytes)
    → has_byte slash a ≡ false
    → has_byte slash c ≡ false
    → c ++ slashed cs ≡ a
    → (c ≡ a) × (cs ≡ [])
unfolding has_byte slashed
same_element a [] [] ha hc e = (e, refl)
same_element [] [] (d ∷ cs) ha hc e = cc
same_element (x ∷ a) [] (d ∷ cs) ha hc e = ground arith
same_element [] (y ∷ c) cs ha hc e = cc
same_element (x ∷ a) (y ∷ c) cs ha hc e = ground (arith, same_element a c cs)

-- The elements of a rooted path that lies below the directory `a` of the root, or is that directory.
pub below :
    (a : Bytes) (cs : List Bytes)
    → has_byte slash a ≡ false
    → All IsPlain cs
    → has_prefix (slash ∷ (a ++ slash ∷ [])) (render_rooted cs) ≡ true
    → (rest : List Bytes) × (cs ≡ a ∷ rest)
unfolding has_prefix slashed
below [] [] ha pl h = cc
below (x ∷ a) [] ha pl h = cc
below a (c ∷ []) ha pl h = cc (only_element a c pl.0.no_slash)
below a (c ∷ d ∷ cs) ha pl h = (
  d ∷ cs,
  ap (λ (e : Bytes). e ∷ d ∷ cs) (first_element a c (d ++ slashed cs) ha pl.0.no_slash h),
)

pub exactly :
    (a : Bytes) (cs : List Bytes)
    → str_eq a [] ≡ false
    → has_byte slash a ≡ false
    → All IsPlain cs
    → render_rooted cs ≡ slash ∷ a
    → cs ≡ a ∷ []
unfolding slashed str_eq
exactly [] cs e ha pl h = cc
exactly (x ∷ a) [] e ha pl h = cc
exactly (x ∷ a) (c ∷ cs) e ha pl h =
    let (p, q) = same_element (x ∷ a) c cs ha pl.0.no_slash (cc) in cc (p, q)
