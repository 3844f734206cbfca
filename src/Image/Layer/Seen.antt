-- ===== src/Image/Layer/Seen.antt =====
-- What the calls of a layer's extraction name, given the calls before them.
use sandkasten.Base.{
  ◌≡◌, ◌≢◌, sym, subst, Bool, true, false, List, [], ◌∷◌, ◌++◌, append_assoc, All, ◌⊎◌,
}
use sandkasten.Base.Text.{Bytes}
use sandkasten.Base.Path.{join, dir, slashed}
use sandkasten.Base.Path.Rooted.{IsPlain, Lacks}
use sandkasten.Image.Layer.{
  DiskCall, lstat, readlink, set_opaque, make_whiteout, make_dirs, remove_all, make_file,
  make_symlink, make_link, Disk, Shown, absent, ordinary, LayerError, escapes_rootfs, Result, done,
  refused, Step, give, refuse, go_on, ◌>>=◌,
}

-- A path that is shown to be no symbolic link.
abbrev pub IsPlace : Shown → Type 0
IsPlace absent = Unit {0}
IsPlace ordinary = Unit {0}
IsPlace _ = ⊥

abbrev pub makes_symlink : DiskCall → Bool
makes_symlink (make_symlink link p) = true
makes_symlink _ = false

module _ (d : Disk) where
  -- Since a symbolic link was last made, the path was looked at and was none.
  abbrev pub SeenAt : List DiskCall → Bytes → Type 0
  SeenAt [] p = ⊥
  SeenAt (c ∷ h) p =
      ((c ≡ lstat p) × IsPlace (d.shows (c ∷ h))) ⊎ ((makes_symlink c ≡ false) × SeenAt h p)

  -- So were the paths of all elements behind a directory.
  abbrev pub Clear : List DiskCall → List Bytes → List Bytes → Type 0
  Clear h at [] = Unit {0}
  Clear h at (c ∷ cs) = SeenAt h (slashed (at ++ c ∷ [])) × Clear h (at ++ c ∷ []) cs

  -- What was seen still counts.
  abbrev pub Carries : List DiskCall → List DiskCall → Type 0
  Carries h h' = (p : Bytes) → SeenAt h p → SeenAt h' p

  pub Clear-Carries :
      (h h' : List DiskCall) (at cs : List Bytes) → Carries h h' → Clear h at cs → Clear h' at cs
  Clear-Carries h h' at [] k c = tt
  Clear-Carries h h' at (c ∷ cs) k (s, ss) =
      (k (slashed (at ++ c ∷ [])) s, Clear-Carries h h' (at ++ c ∷ []) cs k ss)

  pub Clear-init :
      (h : List DiskCall) (at init : List Bytes) (last : Bytes)
      → Clear h at (init ++ last ∷ [])
      → Clear h at init
  Clear-init h at [] last c = tt
  Clear-init h at (i ∷ init) last (s, ss) = (s, Clear-init h (at ++ i ∷ []) init last ss)

  pub Clear-append :
      (h : List DiskCall) (at cs : List Bytes) (part : Bytes)
      → Clear h at cs
      → SeenAt h (slashed (at ++ (cs ++ part ∷ [])))
      → Clear h at (cs ++ part ∷ [])
  Clear-append h at [] part c s = (s, tt)
  Clear-append h at (c ∷ cs) part (s, ss) e = (
    s,
    Clear-append h (at ++ c ∷ []) cs part ss (
        subst (λ (l : List Bytes). SeenAt h (slashed l))
          (sym (append_assoc at (c ∷ []) (cs ++ part ∷ []))) e),
  )

  module _ (root : List Bytes) where
    -- The root or a path of plain elements behind it, none of which is a symbolic link.
    abbrev pub Below : List DiskCall → Bytes → Type 0
    Below h p = (cs : List Bytes) × All IsPlain cs × (p ≡ slashed (root ++ cs)) × Clear h root cs

    -- A plain name in a directory that is so.
    abbrev pub Within : List DiskCall → Bytes → Type 0
    Within h p = (at : Bytes) × (part : Bytes) × Below h at × IsPlain part × (p ≡ join at part)

    -- What a call names, with the calls before it: lstat and readlink name a plain name in such a
    -- directory; writes of a target and both ends of a hard link name such a path; a whiteout is such a
    -- path joined with a name without a slash; a directory that is made is such a path or the
    -- directory of one.
    abbrev pub Names : DiskCall → List DiskCall → Type 0
    Names (lstat p) h = Within h p
    Names (readlink p) h = Within h p
    Names (set_opaque p) h = Below h p
    Names (make_whiteout p) h =
        (at : Bytes) × (name : Bytes) × Below h at × Lacks name × (p ≡ join at name)
    Names (make_dirs p) h = (t : Bytes) × Below h t × ((p ≡ t) ⊎ (p ≡ dir t))
    Names (remove_all p) h = Below h p
    Names (make_file p) h = Below h p
    Names (make_symlink link p) h = Below h p
    Names (make_link from p) h = Below h from × Below h p

    abbrev pub AllNames : List DiskCall → Type 0
    AllNames [] = Unit {0}
    AllNames (c ∷ h) = Names c h × AllNames h

    pub Below-Carries : (h h' : List DiskCall) (p : Bytes) → Carries h h' → Below h p → Below h' p
    Below-Carries h h' p k (cs, q, e, c) = (cs, q, e, Clear-Carries h h' root cs k c)

    abbrev pub Yields :
        {A : Type 0} → (A → List DiskCall → Type 0) → Result A → List DiskCall → Type 0
    Yields P (done a) h = P a h
    Yields P (refused e) h = e ≢ escapes_rootfs

    -- A step makes only such calls, its result is one of `P`, and it never ends with the error that a path
    -- leads out of the root.
    abbrev pub Ends :
        {A : Type 0} → (A → List DiskCall → Type 0) → Result A × List DiskCall → Type 0
    Ends P x = AllNames x.1 × Yields P x.0 x.1

    module _ {A B : Type 0} where
      pub Ends-bind :
          (P : A → List DiskCall → Type 0) (Q : B → List DiskCall → Type 0) (m : Step A)
          (f : A → Step B) (h : List DiskCall)
          → Ends P (m h)
          → ((a : A) (h' : List DiskCall) → AllNames h' → P a h' → Ends Q (f a h'))
          → Ends Q ((m >>= f) h)
      unfolding ◌>>=◌
      Ends-bind P Q m f h (n, y) g = on (m h).0 (m h).1 n y
        where
          on :
              (x : Result A) (h' : List DiskCall)
              → AllNames h'
              → Yields P x h'
              → Ends Q (go_on x f h')
          on (done a) h' n p = g a h' n p
          on (refused e) h' n y = (n, y)

    module _ {A : Type 0} (P : A → List DiskCall → Type 0) (h : List DiskCall) where
      pub Ends-give : (a : A) → AllNames h → P a h → Ends P (give a h)
      unfolding give
      Ends-give a n p = (n, p)

      pub Ends-refuse :
          (e : LayerError) → e ≢ escapes_rootfs → AllNames h → Ends P (refuse {A = A} e h)
      unfolding refuse
      Ends-refuse e ne n = (n, ne)
