-- ===== src/Session/WorkspaceFiles/Calls.antt =====
-- What the calls of writeWorkspaceFileNoSymlinkTraversal name, given the calls before them.
use sandkasten.Base.{◌≡◌, ◌≢◌, ℕ, Bool, true, false, List, [], ◌∷◌, ◌⊎◌, inr}
use sandkasten.Base.Text.{Bytes}
use sandkasten.Base.Path.Rooted.{IsPlain}
use sandkasten.Session.WorkspaceFiles.{
  OpenFlag, no_follow, FileCall, open_root, open_at, make_dir_at, write_to, close, Opened, opened,
  FileKernel, WalkError, out_of_fuel, Walked, done, refused, Walk, give, refuse, finally, go_on,
  ◌>>=◌,
}

-- The flags hold O_NOFOLLOW.
abbrev pub follows_none : List OpenFlag → Bool
follows_none [] = false
follows_none (no_follow ∷ flags) = true
follows_none (_ ∷ flags) = follows_none flags

abbrev pub is_open : FileCall → Bool
is_open (open_root path flags) = true
is_open (open_at fd name flags) = true
is_open _ = false

module _ (k : FileKernel) (root_path : Bytes) where
  -- Among some calls is an open that gave the descriptor.
  abbrev pub Given : List FileCall → ℕ → Type 0
  Given [] fd = ⊥
  Given (c ∷ h) fd = ((is_open c ≡ true) × (k.opens (c ∷ h) ≡ opened fd)) ⊎ Given h fd

  -- By its path only the workspace's directory is opened. A name is looked up in a directory that was
  -- opened before, it is one element and neither `.` nor `..`, and where it is opened a symbolic link
  -- is not followed. What is written or closed was opened before.
  abbrev pub LooksUpPlain : FileCall → List FileCall → Type 0
  LooksUpPlain (open_root path flags) h = path ≡ root_path
  LooksUpPlain (open_at fd name flags) h = IsPlain name × (follows_none flags ≡ true) × Given h fd
  LooksUpPlain (make_dir_at fd name) h = IsPlain name × Given h fd
  LooksUpPlain (write_to fd bytes) h = Given h fd
  LooksUpPlain (close fd) h = Given h fd

  -- Each of some calls does so, with the calls before it.
  abbrev pub AllLookUp : List FileCall → Type 0
  AllLookUp [] = Unit {0}
  AllLookUp (c ∷ h) = LooksUpPlain c h × AllLookUp h

  -- What was opened stays so.
  abbrev pub Carries : List FileCall → List FileCall → Type 0
  Carries h h' = (fd : ℕ) → Given h fd → Given h' fd

  abbrev pub Yields :
      {A : Type 0} → (A → List FileCall → Type 0) → Walked A → List FileCall → Type 0
  Yields P (done a) h = P a h
  Yields P (refused e) h = e ≢ out_of_fuel

  -- An operation makes only such calls, gives what `P` says, and does not run out of fuel.
  abbrev pub Ends :
      {A : Type 0}
      → (A → List FileCall → Type 0)
      → List FileCall
      → Walked A × List FileCall
      → Type 0
  Ends P h x = AllLookUp x.1 × Carries h x.1 × Yields P x.0 x.1

  abbrev pub IsGiven : ℕ → List FileCall → Type 0
  IsGiven fd h = Given h fd

  abbrev pub Any : {A : Type 0} → A → List FileCall → Type 0
  Any a h = Unit {0}

  -- An open that gave a descriptor is among the calls.
  abbrev pub IsFound : Opened → List FileCall → Type 0
  IsFound (opened fd) h = Given h fd
  IsFound _ h = Unit {0}

  module _ {A B : Type 0} where
    pub Ends-bind :
        (P : A → List FileCall → Type 0) (Q : B → List FileCall → Type 0) (m : Walk A)
        (f : A → Walk B) (h : List FileCall)
        → Ends P h (m h)
        → ((a : A) (h' : List FileCall) → AllLookUp h' → Carries h h' → P a h' → Ends Q h' (f a h'))
        → Ends Q h ((m >>= f) h)
    unfolding ◌>>=◌
    Ends-bind P Q m f h (s, c, y) g = on (m h).0 (m h).1 s c y
      where
        on :
            (r : Walked A) (h' : List FileCall)
            → AllLookUp h'
            → Carries h h'
            → Yields P r h'
            → Ends Q h (go_on r f h')
        on (done a) h' s c p = let (s', c', q) = g a h' s c p in (s', λ fd o. c' fd (c fd o), q)
        on (refused e) h' s c n = (s, c, n)

  module _ {A : Type 0} (P : A → List FileCall → Type 0) (h : List FileCall) where
    pub Ends-give : (a : A) → AllLookUp h → P a h → Ends P h (give a h)
    unfolding give
    Ends-give a s p = (s, λ fd o. o, p)

    pub Ends-refuse :
        (e : WalkError) → e ≢ out_of_fuel → AllLookUp h → Ends P h (refuse {A = A} e h)
    unfolding refuse
    Ends-refuse e n s = (s, λ fd o. o, n)

  pub Ends-later :
      {A : Type 0} (P : A → List FileCall → Type 0) (c : FileCall) (h : List FileCall)
      (x : Walked A × List FileCall)
      → Ends P (c ∷ h) x
      → Ends P h x
  Ends-later P c h x (s, carried, y) = (s, λ fd o. carried fd (inr o), y)

  -- A deferred close, of a descriptor that was opened before.
  pub Ends-finally :
      (last : List FileCall → List FileCall) (m : Walk (Unit {0})) (h : List FileCall)
      → ((h' : List FileCall)
          → AllLookUp h'
          → Carries h h'
          → AllLookUp (last h') × Carries h' (last h'))
      → Ends Any h (m h)
      → Ends Any h (finally last m h)
  unfolding finally
  Ends-finally last m h l (s, c, y) =
      let (s', c') = l (m h).1 s c in (s', λ fd o. c' fd (c fd o), ended (m h).0 y)
    where
      ended : (r : Walked (Unit {0})) → Yields Any r (m h).1 → Yields Any r (last (m h).1)
      ended (done a) y = tt
      ended (refused e) y = y
