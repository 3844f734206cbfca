-- ===== src/Runner/Paths.antt =====
-- sanitizePath (cmd/runner/helpers.go) keeps every path under /workspace.
use sandkasten.Base.{
  ◌≡◌, refl, sym, ◌∙◌, ◌⊎◌, true, some, List, [], ◌∷◌, ◌++◌, All, arith, Bool-cases, inl, inr,
  if◌then◌else◌,
}
use sandkasten.Base.Text.{Bytes, codes, str_eq, str_eq_iff, has_prefix, has_byte}
use sandkasten.Base.Path.{slash, is_abs, join, clean, slashed, render_rooted}
use sandkasten.Base.Path.Rooted.{IsPlain, clean_rooted, below, exactly}
use sandkasten.Runner.{sanitize_path}

abbrev pub workspace : Bytes
workspace = codes "workspace"

is_abs-clean : (p : Bytes) → is_abs p ≡ true → is_abs (clean p) ≡ true
is_abs-clean p h = let (cs, pl, e) = clean_rooted p h in rw e (rendered cs)
  where
    rendered : (cs : List Bytes) → is_abs (render_rooted cs) ≡ true
    rendered [] = unfold is_abs in refl
    rendered (c ∷ cs) = unfold is_abs slashed in refl

is_abs-join : (p : Bytes) → is_abs (join (codes "/workspace") p) ≡ true
is_abs-join [] = unfold join is_abs in refl
is_abs-join (c ∷ q) =
    let whole : Bytes = codes "/workspace" ++ slash ∷ c ∷ q in
    let e : join (codes "/workspace") (c ∷ q) ≡ clean whole = unfold join in refl in
    rw e (is_abs-clean whole (unfold is_abs in refl))

-- What sanitizePath cleans is absolute.
is_abs_target : (p : Bytes) → is_abs (if is_abs p then p else join (codes "/workspace") p) ≡ true
is_abs_target p = elim (Bool-cases (is_abs p)) [
  | inl e ↦ rw (e, e) refl
  | inr e ↦ rw e (is_abs-join p)
]

-- The two tests by which a target passes.
passed :
    (p t : Bytes)
    → sanitize_path p ≡ some t
    → (t ≡ clean (if is_abs p then p else join (codes "/workspace") p))
      × ((has_prefix (codes "/workspace/") t ≡ true) ⊎ (str_eq t (codes "/workspace") ≡ true))
unfolding sanitize_path
passed p t h = ground arith

inside :
    (t : Bytes) (cs : List Bytes)
    → All IsPlain cs
    → t ≡ render_rooted cs
    → (has_prefix (codes "/workspace/") t ≡ true) ⊎ (str_eq t (codes "/workspace") ≡ true)
    → (rest : List Bytes) × All IsPlain rest × (t ≡ slashed (workspace ∷ rest))
inside t cs pl e (inl h) =
    let (rest, q) = below workspace cs (unfold has_byte in refl) pl (rw e at h) in
    (rest, (rw q at pl).1, rw (e, q) refl)
inside t cs pl e (inr h) =
    let q =
      exactly workspace cs (unfold str_eq in refl) (unfold has_byte in refl) pl
        (sym e ∙ (str_eq_iff t (codes "/workspace")).0 h) in
    ([], tt, rw (e, q) refl)

-- Whatever path a request names, what sanitizePath lets through is /workspace followed by elements
-- that are not empty, not `.` and not `..`, and hold no slash: no path leaves the workspace.
pub sanitize_path_inside :
    (p t : Bytes)
    → sanitize_path p ≡ some t
    → (rest : List Bytes) × All IsPlain rest × (t ≡ slashed (workspace ∷ rest))
sanitize_path_inside p t h =
    let (cs, pl, e) = clean_rooted _ (is_abs_target p) in
    let (target, tests) = passed p t h in inside t cs pl (target ∙ e) tests
