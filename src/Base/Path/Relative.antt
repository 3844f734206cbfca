-- ===== src/Base/Path/Relative.antt =====
-- filepath.Rel on Unix: one path as seen from another.
use sandkasten.Base.Tests.{if◌then◌else◌, Bool-cases}
use sandkasten.Base.Lists.{All}
use sandkasten.Base.Text.{Bytes, str_eq, eq_of_str_eq, has_prefix}
use sandkasten.Base.Path.{slash, dot, dot_dot, split, slashed, is_abs, clean, render_rooted}
use sandkasten.Base.Path.Rooted.{IsPlain}
use sandkasten.Base.Path.Joined.{clean_rooted_plain, split_rooted}
use mathlib.Core.Path.{◌≡◌, refl, sym, ap, ◌∙◌}
use mathlib.Core.Logic.{inl, inr}
use mathlib.Core.Bool.{Bool, true, false, ◌||◌, not}
use mathlib.Core.Option.{Option, none, some}
use mathlib.Core.List.{List, [], ◌∷◌, ◌++◌}

-- The elements of a cleaned path.
unfoldable pub named_elements : List Bytes → List Bytes
named_elements [] = []
named_elements (c ∷ cs) =
    let rest = named_elements cs in if str_eq c [] || str_eq c dot then rest else c ∷ rest

-- One step up for each element, and what comes behind.
unfoldable pub climb_from : List Bytes → List Bytes → List Bytes
climb_from [] ts = ts
climb_from (b ∷ bs) ts = dot_dot ∷ climb_from bs ts

-- The elements from one path to another; a `..` cannot be undone.
unfoldable pub between : List Bytes → List Bytes → Option (List Bytes)
unfolding climb_from
between [] ts = some ts
between (b ∷ bs) [] = if str_eq b dot_dot then none else some (climb_from (b ∷ bs) [])
between (b ∷ bs) (t ∷ ts) =
    let deeper = between bs ts in
    if str_eq b t
    then deeper
    else if str_eq b dot_dot
    then none
    else some (climb_from (b ∷ bs) (t ∷ ts))

abbrev pub rendered : Option (List Bytes) → Option Bytes
rendered none = none
rendered (some []) = some dot
rendered (some (c ∷ cs)) = some (c ++ slashed cs)

abbrev pub same_kind : Bool → Bool → Bool
same_kind true b = b
same_kind false b = not b

-- filepath.Rel, which gives `none` on an error.
unfoldable pub rel : Bytes → Bytes → Option Bytes
unfolding clean named_elements between is_abs split
rel base target =
    let b = clean base in
    let t = clean target in
    if same_kind (is_abs b) (is_abs t)
    then rendered (between (named_elements (split slash b)) (named_elements (split slash t)))
    else none

-- What the callers test: an error, `..`, or a path that begins with `../`.
abbrev leads_out : Option Bytes → Bool
leads_out none = true
leads_out (some r) = str_eq r dot_dot || has_prefix (dot_dot ++ slash ∷ []) r

unfoldable pub escapes : Bytes → Bytes → Bool
unfolding rel str_eq has_prefix
escapes base target = leads_out (rel base target)

up-leads_out :
    (b : Bytes) (bs ts : List Bytes) → leads_out (rendered (some (climb_from (b ∷ bs) ts))) ≡ true
unfolding climb_from
up-leads_out b bs ts = from (climb_from bs ts)
  where
    from : (xs : List Bytes) → leads_out (some (dot_dot ++ slashed xs)) ≡ true
    from [] = unfold slashed str_eq in refl
    from (c ∷ cs) = unfold slashed str_eq has_prefix in refl

-- Neither an error nor a step up stays inside.
apart-leads_out :
    (b : Bytes) (bs ts : List Bytes)
    → leads_out (rendered (if str_eq b dot_dot then none else some (climb_from (b ∷ bs) ts))) ≡ true
apart-leads_out b bs ts = elim (Bool-cases (str_eq b dot_dot)) [
  | inl e ↦ rw e refl
  | inr e ↦ rw e (up-leads_out b bs ts)
]

-- Of two lists of elements, the second goes on where the first ends, if the way from one to the other
-- does not begin with a step up.
between-inside :
    (bs ts : List Bytes)
    → leads_out (rendered (between bs ts)) ≡ false
    → (rest : List Bytes) × (ts ≡ bs ++ rest)
unfolding between
between-inside [] ts h = (ts, refl)
between-inside (b ∷ bs) [] h = cc (apart-leads_out b bs [], h)
between-inside (b ∷ bs) (t ∷ ts) h = elim (Bool-cases (str_eq b t)) [
  | inl e ↦
      let same : between (b ∷ bs) (t ∷ ts) ≡ between bs ts = rw e refl in
      let (rest, f) =
        between-inside bs ts
          (ap (λ (o : Option (List Bytes)). leads_out (rendered o)) (sym same) ∙ h) in
      (rest, cc (f, eq_of_str_eq b t e))
  | inr e ↦
      let same : between (b ∷ bs) (t ∷ ts)
          ≡ (if str_eq b dot_dot then none else some (climb_from (b ∷ bs) (t ∷ ts))) =
        rw e refl in
      cc (
        apart-leads_out b bs (t ∷ ts),
        ap (λ (o : Option (List Bytes)). leads_out (rendered o)) same,
        h,
      )
]

named_elements-IsPlain : (cs : List Bytes) → All IsPlain cs → named_elements cs ≡ cs
unfolding named_elements
named_elements-IsPlain [] p = refl
named_elements-IsPlain (c ∷ cs) (p, ps) =
    rw (p.nonempty, p.no_dot) (ap (◌∷◌ c) (named_elements-IsPlain cs ps))

elements_rooted :
    (cs : List Bytes) → All IsPlain cs → named_elements (split slash (render_rooted cs)) ≡ cs
unfolding named_elements
elements_rooted [] p = unfold split str_eq in refl
elements_rooted (c ∷ cs) p =
    unfold str_eq in rw (split_rooted c cs p) (named_elements-IsPlain (c ∷ cs) p)

pub is_abs_rooted : (cs : List Bytes) → is_abs (render_rooted cs) ≡ true
unfolding is_abs slashed
is_abs_rooted [] = refl
is_abs_rooted (c ∷ cs) = refl

-- Of two absolute paths of plain elements, the second is at or below the first if Rel does not lead out
-- of it.
pub escapes-inside :
    (bs ts : List Bytes)
    → All IsPlain bs
    → All IsPlain ts
    → escapes (render_rooted bs) (render_rooted ts) ≡ false
    → (rest : List Bytes) × (ts ≡ bs ++ rest)
unfolding escapes rel
escapes-inside bs ts pb pt h =
    let same : rel (render_rooted bs) (render_rooted ts) ≡ rendered (between bs ts) =
      rw
        (
          clean_rooted_plain bs pb,
          clean_rooted_plain ts pt,
          is_abs_rooted bs,
          is_abs_rooted ts,
          elements_rooted bs pb,
          elements_rooted ts pt,
        )
        refl in
    between-inside bs ts (ap leads_out (sym same) ∙ h)
