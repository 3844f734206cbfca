-- ===== src/Session/WorkspaceFiles/Plain.antt =====
-- That writeWorkspaceFileNoSymlinkTraversal stays in the workspace.
use sandkasten.Base.{
  ◌≡◌, ◌≢◌, refl, ◌≤◌, ℕ, zero, suc, true, false, Option, none, some, List, [], ◌∷◌, length,
  length-drop, drop, All, Bool-cases, inl, inr, ◌==◌, arith,
}
use sandkasten.Base.Text.{Bytes, has_byte}
use sandkasten.Base.Path.{split, slash}
use sandkasten.Base.Path.Rooted.{IsPlain, Lacks, split-Lacks}
use sandkasten.Session.WorkspaceFiles.{
  root_flags, dir_flags, file_flags, FileCall, open_root, open_at, make_dir_at, write_to, close,
  Opened, opened, missing, looped, open_refused, MadeDir, made, exists, mkdir_refused, FileKernel,
  invalid_path, escapes, open_workspace_failed, mkdir_failed, open_dir_failed, open_file_failed,
  write_failed, short_write, out_of_fuel, Walked, done, refused, Walk, is_special, file_name,
  dir_names, close_unless, open_call, remake, reopen, entered, enter, walk_dirs, created,
  write_loop, write_named, wrote, below_root, from_root, write_parts, write_no_symlinks,
}
use sandkasten.Session.WorkspaceFiles.Calls.{
  is_open, Given, LooksUpPlain, AllLookUp, Carries, Yields, Ends, IsGiven, Any, IsFound, Ends-bind,
  Ends-give, Ends-refuse, Ends-later, Ends-finally,
}

module _ (k : FileKernel) (root_path : Bytes) where
  closed :
      (fd : ℕ) (h : List FileCall)
      → AllLookUp k root_path h
      → Given k root_path h fd
      → AllLookUp k root_path (close fd ∷ h) × Carries k root_path h (close fd ∷ h)
  closed fd h s o = ((o, s), λ n o'. inr o')

  closed_unless :
      (root fd : ℕ) (h : List FileCall)
      → AllLookUp k root_path h
      → Given k root_path h fd
      → AllLookUp k root_path (close_unless root fd h)
        × Carries k root_path h (close_unless root fd h)
  closed_unless root fd h s o = elim (Bool-cases (fd == root)) [
    | inl e ↦ rw e (s, λ n o'. o')
    | inr e ↦ rw e (closed fd h s o)
  ]

  Ends-open_call :
      (c : FileCall) (h : List FileCall)
      → is_open c ≡ true
      → LooksUpPlain k root_path c h
      → AllLookUp k root_path h
      → Ends k root_path (IsFound k root_path) h (open_call k c h)
  unfolding open_call
  Ends-open_call c h o l s = ((l, s), λ fd p. inr p, found (k.opens (c ∷ h)) refl)
    where
      found : (r : Opened) → k.opens (c ∷ h) ≡ r → (IsFound k root_path) r (c ∷ h)
      found (opened fd) e = inl (o, e)
      found missing e = tt
      found looped e = tt
      found open_refused e = tt

  Ends-entered :
      (o : Opened) (h : List FileCall)
      → AllLookUp k root_path h
      → (IsFound k root_path) o h
      → Ends k root_path (IsGiven k root_path) h (entered k o h)
  Ends-entered (opened fd) h s f = Ends-give k root_path (IsGiven k root_path) h fd s f
  Ends-entered missing h s f =
      Ends-refuse k root_path (IsGiven k root_path) h open_dir_failed (λ e. cc e) s
  Ends-entered looped h s f = Ends-refuse k root_path (IsGiven k root_path) h escapes (λ e. cc e) s
  Ends-entered open_refused h s f =
      Ends-refuse k root_path (IsGiven k root_path) h open_dir_failed (λ e. cc e) s

  Ends-reopen :
      (fd : ℕ) (part : Bytes) (o : Opened) (h : List FileCall)
      → IsPlain part
      → AllLookUp k root_path h
      → Given k root_path h fd
      → (IsFound k root_path) o h
      → Ends k root_path (IsFound k root_path) h (reopen k fd part o h)
  Ends-reopen fd part (opened n) h l s g f =
      Ends-give k root_path (IsFound k root_path) h (opened n) s f
  Ends-reopen fd part looped h l s g f = Ends-give k root_path (IsFound k root_path) h looped s tt
  Ends-reopen fd part open_refused h l s g f =
      Ends-give k root_path (IsFound k root_path) h open_refused s tt
  Ends-reopen fd part missing h l s g f =
      let c = make_dir_at fd part in
      Ends-later k root_path (IsFound k root_path) c h _ (again (k.makes (c ∷ h)))
    where
      again :
          (m : MadeDir)
          → Ends k root_path
              (IsFound k root_path)
              (make_dir_at fd part ∷ h)
              (remake k fd part m (make_dir_at fd part ∷ h))
      again made = Ends-open_call (open_at fd part dir_flags) _ refl (l, refl, inr g) ((l, g), s)
      again exists = Ends-open_call (open_at fd part dir_flags) _ refl (l, refl, inr g) ((l, g), s)
      again mkdir_refused =
          Ends-refuse k root_path (IsFound k root_path) _ mkdir_failed (λ e. cc e) ((l, g), s)

  ordinary : (name : Bytes) → has_byte slash name ≡ false → is_special name ≡ false → IsPlain name
  unfolding is_special
  ordinary name l s = record {
    no_slash = l;
    nonempty = ground arith;
    no_dot = ground arith;
    no_dot_dot = ground arith;
  }

  Ends-enter :
      (fd : ℕ) (part : Bytes) (h : List FileCall)
      → Lacks part
      → AllLookUp k root_path h
      → Given k root_path h fd
      → Ends k root_path (IsGiven k root_path) h (enter k fd part h)
  unfolding enter
  Ends-enter fd part h l s g = elim (Bool-cases (is_special part)) [
    | inl e ↦ rw e (Ends-refuse k root_path (IsGiven k root_path) h invalid_path (λ q. cc q) s)
    | inr e ↦
        let plain = ordinary part l e in
        rw e (
          Ends-bind k root_path (IsFound k root_path) (IsGiven k root_path) _ _ h
            (Ends-open_call (open_at fd part dir_flags) h refl (plain, refl, g) s)
            λ o h1 s1 c1 f1.
              Ends-bind k root_path (IsFound k root_path) (IsGiven k root_path) _ _ h1
                (Ends-reopen fd part o h1 plain s1 (c1 fd g) f1)
                λ o' h2 s2 c2 f2. Ends-entered o' h2 s2 f2)
  ]

  Ends-walk_dirs :
      (root fd : ℕ) (parts : List Bytes) (h : List FileCall)
      → All Lacks parts
      → AllLookUp k root_path h
      → Given k root_path h fd
      → Ends k root_path (IsGiven k root_path) h (walk_dirs k root fd parts h)
  unfolding walk_dirs
  Ends-walk_dirs root fd [] h l s g = Ends-give k root_path (IsGiven k root_path) h fd s g
  Ends-walk_dirs root fd (part ∷ parts) h (l, ls) s g =
      Ends-bind k root_path (IsGiven k root_path) (IsGiven k root_path) (enter k fd part) _ h
        (Ends-enter fd part h l s g)
        λ next h1 s1 c1 g1.
          let (s2, c2) = closed_unless root fd h1 s1 (c1 fd g) in
          let (s3, c3, y) = Ends-walk_dirs root next parts _ ls s2 (c2 next g1) in
          (s3, λ n o. c3 n (c2 n o), y)

  Ends-created :
      (o : Opened) (h : List FileCall)
      → AllLookUp k root_path h
      → (IsFound k root_path) o h
      → Ends k root_path (IsGiven k root_path) h (created k o h)
  Ends-created (opened fd) h s f = Ends-give k root_path (IsGiven k root_path) h fd s f
  Ends-created missing h s f =
      Ends-refuse k root_path (IsGiven k root_path) h open_file_failed (λ e. cc e) s
  Ends-created looped h s f = Ends-refuse k root_path (IsGiven k root_path) h escapes (λ e. cc e) s
  Ends-created open_refused h s f =
      Ends-refuse k root_path (IsGiven k root_path) h open_file_failed (λ e. cc e) s

  Ends-wrote :
      (o : Option ℕ) (next : ℕ → Walk (Unit {0})) (h : List FileCall)
      → AllLookUp k root_path h
      → ((n : ℕ) → Ends k root_path (Any k root_path) h (next n h))
      → Ends k root_path (Any k root_path) h (wrote k o next h)
  Ends-wrote none next h s f =
      Ends-refuse k root_path (Any k root_path) h write_failed (λ e. cc e) s
  Ends-wrote (some zero) next h s f =
      Ends-refuse k root_path (Any k root_path) h short_write (λ e. cc e) s
  Ends-wrote (some (suc n)) next h s f = f n

  -- As much fuel as there are bytes is enough, since each write that goes on takes one at least.
  Ends-write_loop :
      (fuel fd : ℕ) (content : Bytes) (h : List FileCall)
      → length content ≤ fuel
      → AllLookUp k root_path h
      → Given k root_path h fd
      → Ends k root_path (Any k root_path) h (write_loop k fuel fd content h)
  unfolding write_loop
  Ends-write_loop fuel fd [] h l s g = (s, λ n o. o, tt)
  Ends-write_loop zero fd (b ∷ bytes) h l s g = absurd (omega arith)
  Ends-write_loop (suc fuel) fd (b ∷ bytes) h l s g =
      let h' : List FileCall = write_to fd (b ∷ bytes) ∷ h in
      Ends-later k root_path (Any k root_path) (write_to fd (b ∷ bytes)) h _ (
        Ends-wrote (k.writes h') (λ n. write_loop k fuel fd (drop n bytes)) h' (g, s)
          λ n.
            Ends-write_loop fuel fd (drop n bytes) h'
              (let d = length-drop n bytes in omega (arith, d)) (g, s) (inr g))

  Ends-write_named :
      (fd : ℕ) (name content : Bytes) (h : List FileCall)
      → IsPlain name
      → AllLookUp k root_path h
      → Given k root_path h fd
      → Ends k root_path (Any k root_path) h (write_named k fd name content h)
  Ends-write_named fd name content h l s g =
      Ends-bind k root_path (IsFound k root_path) (Any k root_path) _ _ h
        (Ends-open_call (open_at fd name file_flags) h refl (l, refl, g) s)
        λ o h1 s1 c1 f1.
          Ends-bind k root_path (IsGiven k root_path) (Any k root_path) _ _ h1
            (Ends-created o h1 s1 f1)
            λ file h2 s2 c2 g2.
              Ends-finally k root_path (λ h. close file ∷ h)
                (write_loop k (length content) file content) h2
                (λ h3 s3 c3. closed file h3 s3 (c3 file g2))
                (Ends-write_loop (length content) file content h2 (omega arith) s2 g2)

  Ends-below_root :
      (root : ℕ) (dirs : List Bytes) (name content : Bytes) (h : List FileCall)
      → All Lacks dirs
      → IsPlain name
      → AllLookUp k root_path h
      → Given k root_path h root
      → Ends k root_path (Any k root_path) h (below_root k root dirs name content h)
  Ends-below_root root dirs name content h ls l s g =
      Ends-bind k root_path (IsGiven k root_path) (Any k root_path) (walk_dirs k root root dirs) _ h
        (Ends-walk_dirs root root dirs h ls s g)
        λ fd h1 s1 c1 g1.
          Ends-finally k root_path (close_unless root fd) (write_named k fd name content) h1
            (λ h2 s2 c2. closed_unless root fd h2 s2 (c2 fd g1))
            (Ends-write_named fd name content h1 l s1 g1)

  Ends-from_root :
      (dirs : List Bytes) (name content : Bytes) (o : Opened) (h : List FileCall)
      → All Lacks dirs
      → IsPlain name
      → AllLookUp k root_path h
      → (IsFound k root_path) o h
      → Ends k root_path (Any k root_path) h (from_root k dirs name content o h)
  Ends-from_root dirs name content (opened root) h ls l s g =
      Ends-finally k root_path (λ h. close root ∷ h) (below_root k root dirs name content) h
        (λ h1 s1 c1. closed root h1 s1 (c1 root g))
        (Ends-below_root root dirs name content h ls l s g)
  Ends-from_root dirs name content missing h ls l s g =
      Ends-refuse k root_path (Any k root_path) h open_workspace_failed (λ e. cc e) s
  Ends-from_root dirs name content looped h ls l s g =
      Ends-refuse k root_path (Any k root_path) h open_workspace_failed (λ e. cc e) s
  Ends-from_root dirs name content open_refused h ls l s g =
      Ends-refuse k root_path (Any k root_path) h open_workspace_failed (λ e. cc e) s

  names-Lacks :
      (part : Bytes) (parts : List Bytes)
      → All Lacks (part ∷ parts)
      → All Lacks (dir_names part parts) × Lacks (file_name part parts)
  unfolding dir_names file_name
  names-Lacks part [] (l, _) = (tt, l)
  names-Lacks part (next ∷ parts) (l, ls) = let (ds, n) = names-Lacks next parts ls in ((l, ds), n)

  Ends-write_parts :
      (parts : List Bytes) (content : Bytes)
      → All Lacks parts
      → Ends k root_path (Any k root_path) [] (write_parts k root_path parts content [])
  Ends-write_parts [] content ls =
      Ends-refuse k root_path (Any k root_path) [] invalid_path (λ e. cc e) tt
  Ends-write_parts (part ∷ parts) content ls =
      let (ds, n) = names-Lacks part parts ls in
      elim (Bool-cases (is_special (file_name part parts))) [
        | inl e ↦ rw e (Ends-refuse k root_path (Any k root_path) [] invalid_path (λ q. cc q) tt)
        | inr e ↦ rw e (
            Ends-bind k root_path (IsFound k root_path) (Any k root_path) _ _ []
              (Ends-open_call (open_root root_path root_flags) [] refl refl tt)
              λ o h s c f.
                Ends-from_root (dir_names part parts) (file_name part parts) content o h ds
                  (ordinary (file_name part parts) n e) s f)
      ]

  -- Whatever path it is given and whatever the kernel answers, writeWorkspaceFileNoSymlinkTraversal
  -- comes to an end. By its path it opens only the workspace's directory. Every other name that it opens
  -- or makes is a single element, neither `.` nor `..`, looked up in a descriptor that one of its own
  -- earlier opens gave, and each such open has the flag O_NOFOLLOW; what it writes to and closes was given
  -- by one of its opens too.
  pub write_no_symlinks-LooksUpPlain :
      (rel_path content : Bytes)
      → AllLookUp k root_path (write_no_symlinks k root_path rel_path content []).1
        × ((write_no_symlinks k root_path rel_path content []).0 ≢ refused out_of_fuel)
  unfolding write_no_symlinks
  write_no_symlinks-LooksUpPlain rel_path content =
      let (s, c, y) = Ends-write_parts (split slash rel_path) content (split-Lacks rel_path) in
      (s, ended _ _ y)
    where
      ended :
          (r : Walked (Unit {0})) (h : List FileCall)
          → Yields k root_path (Any k root_path) r h
          → r ≢ refused out_of_fuel
      ended (done a) h y = λ e. cc e
      ended (refused e) h y = λ q. y (cc q)
