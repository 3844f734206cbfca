-- ===== src/Image/Layer/Scoped.antt =====
-- Where the paths of a layer's archive lead, whatever symbolic links are on the disk.
use sandkasten.Base.{
  ◌≡◌, refl, sym, ap, ◌∙◌, subst, ℕ, zero, suc, true, false, ◌||◌, Option, none, some, List, [],
  ◌∷◌, ◌++◌, append-nil, append_assoc, All, All-append, Bool-cases, inl, inr, if◌then◌else◌,
}
use sandkasten.Base.Text.{
  Bytes, str_eq, str_eq_refl, has_prefix, has_prefix-append, trim_prefix, trim_prefix-append,
}
use sandkasten.Base.Path.{slash, dot, dot_dot, split, clean, join, dir, slashed}
use sandkasten.Base.Path.Rooted.{IsPlain, Lacks, split-Lacks, element-IsPlain}
use sandkasten.Base.Path.Joined.{clean-slashed, join-plain, dir-slashed, slashed-append}
use sandkasten.Image.Layer.{
  DiskCall, lstat, readlink, Disk, Shown, absent, stat_refused, symlink, ordinary,
  too_many_symlinks, stat_failed, readlink_failed, Result, done, refused, Step, link_path, follow,
  found, look_up, walk, eval_symlinks_in_scope, depths, checked, secure_target_path,
}
use sandkasten.Image.Layer.Seen.{
  Clear, Carries, Clear-Carries, Clear-init, Clear-append, IsPlace, Below, Below-Carries, Names,
  AllNames, Yields, Ends, Ends-bind, Ends-give, Ends-refuse,
}

-- What a path below a directory is called from there.
abbrev pub relative : List Bytes → Bytes
relative [] = []
relative (c ∷ cs) = c ++ slashed cs

-- The last of some elements.
last_of :
    (c : Bytes) (cs : List Bytes)
    → All IsPlain (c ∷ cs)
    → (init : List Bytes) × (last : Bytes) × (c ∷ cs ≡ init ++ last ∷ [])
      × All IsPlain init
      × IsPlain last
last_of c [] (p, _) = ([], c, refl, tt, p)
last_of c (c' ∷ cs) (p, ps) =
    let (init, last, e, i, l) = last_of c' cs ps in (c ∷ init, last, ap (◌∷◌ c) e, (p, i), l)

module _ (d : Disk) (r : Bytes) (rs : List Bytes) (plain : All IsPlain (r ∷ rs)) where
  abbrev root : Bytes
  root = slashed (r ∷ rs)

  abbrev Place : List DiskCall → Bytes → Type 0
  Place h p = Below d (r ∷ rs) h p

  -- Where a path ends in a plain element, its directory.
  pub parent :
      (h : List DiskCall) (c : Bytes) (cs : List Bytes)
      → All IsPlain (c ∷ cs)
      → Clear d h (r ∷ rs) (c ∷ cs)
      → Below d (r ∷ rs) h (dir (slashed ((r ∷ rs) ++ c ∷ cs)))
  parent h c cs q clear =
      let (init, last, e, i, l) = last_of c cs q in
      (
        init,
        i,
        ap (λ (l : List Bytes). dir (slashed l))
              (ap (◌++◌ (r ∷ rs)) e ∙ sym (append_assoc (r ∷ rs) init (last ∷ [])))
            ∙ dir-slashed ((r ∷ rs) ++ init) last (All-append IsPlain (r ∷ rs) init plain i) l,
        Clear-init d h (r ∷ rs) init last
            (subst (λ (l : List Bytes). Clear d h (r ∷ rs) l) e clear),
      )

  climb : (h : List DiskCall) (p : Bytes) → Place h p → Place h (if str_eq p root then p else dir p)
  climb h p (cs, q, e, c) = elim (Bool-cases (str_eq p root)) [
    | inl t ↦ rw t (cs, q, e, c)
    | inr t ↦ rw t (up cs q e c t)
  ]
    where
      up :
          (cs : List Bytes)
          → All IsPlain cs
          → p ≡ slashed ((r ∷ rs) ++ cs)
          → Clear d h (r ∷ rs) cs
          → str_eq p root ≡ false
          → Place h (dir p)
      up [] q e c t =
          no
            (let same : p ≡ root = e ∙ ap slashed (append-nil (r ∷ rs)) in
              subst (λ (x : Bytes). str_eq x root ≡ true) (sym same) (str_eq_refl root))
            t
        where
          no : str_eq p root ≡ true → str_eq p root ≡ false → Place h (dir p)
          no a b = cc (a, b)
      up (c ∷ cs) q e clear t =
          subst (λ (x : Bytes). Place h (dir x)) (sym e) (parent h c cs q clear)

  -- An element behind a path, once it was looked at.
  descend :
      (h : List DiskCall) (p part : Bytes)
      → Place h p
      → IsPlain part
      → IsPlace (d.shows (lstat (join p part) ∷ h))
      → Place (lstat (join p part) ∷ h) (join p part)
  descend h p part (cs, q, e, c) l shown =
      let h' : List DiskCall = lstat (join p part) ∷ h in
      let named : join p part ≡ slashed ((r ∷ rs) ++ (cs ++ part ∷ [])) =
        ap (λ (x : Bytes). join x part) e
        ∙ (join-plain r (rs ++ cs) part (plain.0, All-append IsPlain rs cs plain.1 q) l
            ∙ ap (λ (l : List Bytes). slashed (r ∷ l)) (append_assoc rs cs (part ∷ []))) in
      (
        cs ++ part ∷ [],
        All-append IsPlain cs (part ∷ []) q (l, tt),
        named,
        Clear-append d h' (r ∷ rs) cs part
            (Clear-Carries d h h' (r ∷ rs) cs (λ _ s. inr (refl, s)) c)
            (inl (ap lstat named, shown)),
      )

  -- A path that was resolved, and what was seen before still counts.
  abbrev Resolved : List DiskCall → Bytes → List DiskCall → Type 0
  Resolved h p h' = Place h' p × Carries d h h'

  module _ (deeper : Bytes → Step Bytes)
      (deep : (p : Bytes) (h : List DiskCall)
        → AllNames d (r ∷ rs) h
        → Ends d (r ∷ rs) (Resolved h) (deeper p h)) where
    Ends-found :
        (h : List DiskCall) (current part : Bytes) (s : Shown)
        → Place h current
        → IsPlain part
        → d.shows (lstat (join current part) ∷ h) ≡ s
        → AllNames d (r ∷ rs) (lstat (join current part) ∷ h)
        → Ends d
            (r ∷ rs)
            (Resolved h)
            (found d root (join current part) deeper s (lstat (join current part) ∷ h))
    Ends-found h current part absent b l e n =
        Ends-give d (r ∷ rs) (Resolved h) (lstat (join current part) ∷ h) (join current part) n
          (descend h current part b l (subst IsPlace (sym e) tt), λ _ s. inr (refl, s))
    Ends-found h current part stat_refused b l e n =
        Ends-refuse d (r ∷ rs) (Resolved h) (lstat (join current part) ∷ h) stat_failed (λ e. cc e)
          n
    Ends-found h current part ordinary b l e n =
        Ends-give d (r ∷ rs) (Resolved h) (lstat (join current part) ∷ h) (join current part) n
          (descend h current part b l (subst IsPlace (sym e) tt), λ _ s. inr (refl, s))
    Ends-found h current part symlink b l e n =
        let next = join current part in
        let h' : List DiskCall = readlink next ∷ lstat next ∷ h in
        let seen : Names d (r ∷ rs) (readlink next) (lstat next ∷ h) = (
          current,
          part,
          Below-Carries d (r ∷ rs) h (lstat next ∷ h) current (λ _ s. inr (refl, s)) b,
          l,
          refl,
        ) in
        followed next h' (λ _ s. inr (refl, inr (refl, s))) (d.readlinks h') (seen, n)
      where
        followed :
            (next : Bytes) (h' : List DiskCall)
            → Carries d h h'
            → (t : Option Bytes) → AllNames d (r ∷ rs) h'
            → Ends d (r ∷ rs) (Resolved h) (follow d root next deeper t h')
        followed next h' k none n =
            Ends-refuse d (r ∷ rs) (Resolved h) h' readlink_failed (λ e. cc e) n
        followed next h' k (some t) n =
            let (n', y) = deep (link_path root next t) h' n in (n', later _ _ y)
          where
            later :
                (x : Result Bytes) (g : List DiskCall)
                → Yields d (r ∷ rs) (Resolved h') x g
                → Yields d (r ∷ rs) (Resolved h) x g
            later (done a) g (b, k') = (b, λ p s. k' p (k p s))
            later (refused e) g y = y

    Ends-walk :
        (h : List DiskCall) (current : Bytes) (parts : List Bytes)
        → Place h current
        → All Lacks parts
        → AllNames d (r ∷ rs) h
        → Ends d (r ∷ rs) (Resolved h) (walk d root deeper current parts h)
    unfolding walk look_up
    Ends-walk h current [] b l n = Ends-give d (r ∷ rs) (Resolved h) h current n (b, λ _ s. s)
    Ends-walk h current (part ∷ parts) b (l, ls) n =
        elim (Bool-cases (str_eq part [] || str_eq part dot)) [
          | inl e ↦ rw e (Ends-walk h current parts b ls n)
          | inr e ↦ elim (Bool-cases (str_eq part dot_dot)) [
            | inl f ↦
                rw (e, f)
                  (Ends-walk h (if str_eq current root then current else dir current) parts
                    (climb h current b) ls n)
            | inr f ↦
                let pl = element-IsPlain part e f l in
                rw (e, f)
                  (Ends-bind d (r ∷ rs) (Resolved h) (Resolved h) _ _ h
                    (Ends-found h current part (d.shows (lstat (join current part) ∷ h)) b pl refl
                      ((current, part, b, pl, refl), n))
                    (λ p h' n' (below, k). carried h h' k _ (Ends-walk h' p parts below ls n')))
          ]
        ]
      where
        carried :
            (h h' : List DiskCall)
            → Carries d h h'
            → (x : Result Bytes × List DiskCall) → Ends d (r ∷ rs) (Resolved h') x
            → Ends d (r ∷ rs) (Resolved h) x
        carried h h' k (done a, g) (n, (b, k')) = (n, (b, λ p s. k' p (k p s)))
        carried h h' k (refused e, g) (n, y) = (n, y)

  Ends-eval :
      (n : ℕ) (path : Bytes) (h : List DiskCall)
      → AllNames d (r ∷ rs) h
      → Ends d (r ∷ rs) (Resolved h) (eval_symlinks_in_scope d n root path h)
  unfolding eval_symlinks_in_scope
  Ends-eval zero path h a = Ends-refuse d (r ∷ rs) (Resolved h) h too_many_symlinks (λ e. cc e) a
  Ends-eval (suc n) path h a =
      let same : clean root ≡ root = clean-slashed r rs plain in
      let start : Place h root = ([], tt, ap slashed (sym (append-nil (r ∷ rs))), tt) in
      rw same (
        Ends-walk (eval_symlinks_in_scope d n root) (λ p. Ends-eval n p) h root
          (split slash (clean (slash ∷ path))) start (split-Lacks (clean (slash ∷ path))) a)

  -- The resolved path as the code goes on with it: it, and what stands behind the root.
  abbrev pub Placed : List DiskCall → Bytes × Bytes → List DiskCall → Type 0
  Placed h (target, inside) h' =
      (cs : List Bytes) × All IsPlain cs
      × (target ≡ slashed ((r ∷ rs) ++ cs))
      × Clear d h' (r ∷ rs) cs
      × (inside ≡ relative cs)
      × Carries d h h'

  checked-Placed :
      (g h : List DiskCall) (p : Bytes)
      → AllNames d (r ∷ rs) h
      → Resolved g p h
      → Ends d (r ∷ rs) (Placed g) (checked root p h)
  unfolding checked
  checked-Placed g h p n (([], q, e, clear), k) =
      let same : p ≡ root = e ∙ ap slashed (append-nil (r ∷ rs)) in
      let none_left : trim_prefix (slash ∷ []) (trim_prefix root root) ≡ [] =
        ap (λ (x : Bytes). trim_prefix (slash ∷ []) (trim_prefix root x)) (sym (append-nil root))
        ∙ (ap (trim_prefix (slash ∷ [])) (trim_prefix-append root [])
            ∙ unfold trim_prefix has_prefix in refl) in
      let given =
        Ends-give d (r ∷ rs) (Placed g) h (root, trim_prefix (slash ∷ []) (trim_prefix root root)) n
          ([], tt, ap slashed (sym (append-nil (r ∷ rs))), tt, none_left, k) in
      elim (Bool-cases (has_prefix (root ++ slash ∷ []) root)) [
        | inl t ↦ rw (same, str_eq_refl root, t) given
        | inr t ↦ rw (same, str_eq_refl root, t) given
      ]
  checked-Placed g h p n ((c ∷ cs, q, e, clear), k) =
      let longer : p ≡ (root ++ slash ∷ []) ++ (c ++ slashed cs) =
        e
        ∙ (slashed-append (r ∷ rs) (c ∷ cs)
            ∙ unfold slashed in (sym (append_assoc root (slash ∷ []) (c ++ slashed cs)))) in
      let left : trim_prefix (slash ∷ [])
            (trim_prefix root ((root ++ slash ∷ []) ++ (c ++ slashed cs)))
          ≡ c ++ slashed cs =
        ap (λ (x : Bytes). trim_prefix (slash ∷ []) (trim_prefix root x))
          (append_assoc root (slash ∷ []) (c ++ slashed cs))
        ∙ (ap (trim_prefix (slash ∷ [])) (trim_prefix-append root (slash ∷ (c ++ slashed cs)))
            ∙ trim_prefix-append (slash ∷ []) (c ++ slashed cs)) in
      rw (longer, has_prefix-append (root ++ slash ∷ []) (c ++ slashed cs))
        (Ends-give d (r ∷ rs) (Placed g) h _ n (c ∷ cs, q, sym longer ∙ e, clear, left, k))

  -- secureTargetPath ends with a path below the root of which no element behind the root was shown to be
  -- a symbolic link, or with an error of the disk or of the depth; its own check never refuses.
  pub secure_target_path-Placed :
      (path : Bytes) (h : List DiskCall)
      → AllNames d (r ∷ rs) h
      → Ends d (r ∷ rs) (Placed h) (secure_target_path d root path h)
  unfolding secure_target_path
  secure_target_path-Placed path h n =
      Ends-bind d (r ∷ rs) (Resolved h) (Placed h) _ _ h (Ends-eval depths path h n)
        (λ p h' n' b. checked-Placed h h' p n' b)
