-- ===== src/Session/WorkspaceFiles.antt =====
-- internal/session/workspace_fs.go: writeWorkspaceFileNoSymlinkTraversal, over the calls that it makes.
-- What the kernel answers may depend on all calls made so far.
pub mod Calls
pub mod Plain
use sandkasten.Base.{
  ℕ, zero, suc, Bool, true, false, ◌||◌, Option, none, some, List, [], ◌∷◌, length, drop, ◌==◌,
  if◌then◌else◌,
}
use sandkasten.Base.Text.{Bytes, str_eq}
use sandkasten.Base.Path.{split, slash, dot, dot_dot}

-- The flags of open and openat.
pub data OpenFlag : Type 0 where
  read_only write_only directory create truncate close_on_exec no_follow : OpenFlag

abbrev root_flags : List OpenFlag
root_flags = read_only ∷ directory ∷ close_on_exec ∷ []

abbrev pub dir_flags : List OpenFlag
dir_flags = read_only ∷ directory ∷ close_on_exec ∷ no_follow ∷ []

abbrev pub file_flags : List OpenFlag
file_flags = write_only ∷ create ∷ truncate ∷ close_on_exec ∷ no_follow ∷ []

-- The calls, with the descriptor that a name is looked up in.
pub data FileCall : Type 0 where
  open_root : Bytes → List OpenFlag → FileCall
  open_at : ℕ → Bytes → List OpenFlag → FileCall
  make_dir_at : ℕ → Bytes → FileCall
  write_to : ℕ → Bytes → FileCall
  close : ℕ → FileCall

-- A descriptor; ENOENT; ELOOP, which O_NOFOLLOW gives at a symbolic link; another error.
pub data Opened : Type 0 where
  opened : ℕ → Opened
  missing looped open_refused : Opened

-- Mkdirat: success, EEXIST, another error.
pub data MadeDir : Type 0 where
  made exists mkdir_refused : MadeDir

-- What the kernel answers; `none` is an error of write.
pub record FileKernel : Type 0 where
  pub opens : List FileCall → Opened
  pub makes : List FileCall → MadeDir
  pub writes : List FileCall → Option ℕ

pub data WalkError : Type 0 where
  invalid_path escapes open_workspace_failed mkdir_failed open_dir_failed : WalkError
  open_file_failed write_failed short_write out_of_fuel : WalkError

pub data Walked (A : Type 0) : Type 0 where
  done : A → Walked A
  refused : WalkError → Walked A

abbrev pub Walk : Type 0 → Type 0
Walk A = List FileCall → Walked A × List FileCall

module _ {A : Type 0} where
  unfoldable pub give : A → Walk A
  give a h = (done a, h)

  unfoldable pub refuse : WalkError → Walk A
  refuse e h = (refused e, h)

  -- A deferred close.
  unfoldable pub finally : (List FileCall → List FileCall) → Walk A → Walk A
  finally last m h = let (r, h') = m h in (r, last h')

module _ {A B : Type 0} where
  abbrev pub go_on : Walked A → (A → Walk B) → Walk B
  go_on (done a) f h = f a h
  go_on (refused e) f h = (refused e, h)

  infixl 5 ◌>>=◌ ◌>>◌
  unfoldable pub ◌>>=◌ : Walk A → (A → Walk B) → Walk B
  ◌>>=◌ m f h = let (r, h') = m h in go_on r f h'

  abbrev pub ◌>>◌ : Walk A → Walk B → Walk B
  m >> n = m >>= λ _. n

-- A part of a path that is not followed.
unfoldable pub is_special : Bytes → Bool
is_special part = str_eq part [] || str_eq part dot || str_eq part dot_dot

-- All parts but the last, and the last.
unfoldable pub file_name : Bytes → List Bytes → Bytes
file_name part [] = part
file_name part (next ∷ parts) = file_name next parts

unfoldable pub dir_names : Bytes → List Bytes → List Bytes
dir_names part [] = []
dir_names part (next ∷ parts) = part ∷ dir_names next parts

abbrev pub close_unless : ℕ → ℕ → List FileCall → List FileCall
close_unless root fd h = if fd == root then h else close fd ∷ h

module _ (k : FileKernel) where
  unfoldable pub open_call : FileCall → Walk Opened
  open_call c h = (done (k.opens (c ∷ h)), c ∷ h)

  abbrev pub remake : ℕ → Bytes → MadeDir → Walk Opened
  remake fd part mkdir_refused = refuse mkdir_failed
  remake fd part _ = open_call (open_at fd part dir_flags)

  -- A directory that is missing is made, and opened again.
  abbrev pub reopen : ℕ → Bytes → Opened → Walk Opened
  reopen fd part missing h = let h' = make_dir_at fd part ∷ h in remake fd part (k.makes h') h'
  reopen fd part o h = give o h

  abbrev pub entered : Opened → Walk ℕ
  entered (opened fd) = give fd
  entered looped = refuse escapes
  entered _ = refuse open_dir_failed

  unfoldable pub enter : ℕ → Bytes → Walk ℕ
  enter fd part =
      if is_special part
      then refuse invalid_path
      else (do o ← open_call (open_at fd part dir_flags); o' ← reopen fd part o; entered o')

  -- The loop over the directories.
  unfoldable pub walk_dirs : ℕ → ℕ → List Bytes → Walk ℕ
  walk_dirs root fd [] = give fd
  walk_dirs root fd (part ∷ parts) = do
    next ← enter fd part
    λ h. walk_dirs root next parts (close_unless root fd h)

  abbrev pub created : Opened → Walk ℕ
  created (opened fd) = give fd
  created looped = refuse escapes
  created _ = refuse open_file_failed

  -- What follows a write, which goes on behind the first byte that it took.
  abbrev pub wrote : Option ℕ → (ℕ → Walk (Unit {0})) → Walk (Unit {0})
  wrote none next = refuse write_failed
  wrote (some zero) next = refuse short_write
  wrote (some (suc n)) next = next n

  -- The loop of the writes, with the length of the data as fuel.
  unfoldable pub write_loop : ℕ → ℕ → Bytes → Walk (Unit {0})
  write_loop fuel fd [] h = (done tt, h)
  write_loop zero fd (b ∷ bytes) h = (refused out_of_fuel, h)
  write_loop (suc fuel) fd (b ∷ bytes) h =
      let h' = write_to fd (b ∷ bytes) ∷ h in
      wrote (k.writes h') (λ n. write_loop fuel fd (drop n bytes)) h'

  abbrev pub write_named : ℕ → Bytes → Bytes → Walk (Unit {0})
  write_named fd name content = do
    o ← open_call (open_at fd name file_flags)
    file ← created o
    finally (λ h. close file ∷ h) (write_loop (length content) file content)

  abbrev pub below_root : ℕ → List Bytes → Bytes → Bytes → Walk (Unit {0})
  below_root root dirs name content = do
    fd ← walk_dirs root root dirs
    finally (close_unless root fd) (write_named fd name content)

  abbrev pub from_root : List Bytes → Bytes → Bytes → Opened → Walk (Unit {0})
  from_root dirs name content (opened root) =
      finally (λ h. close root ∷ h) (below_root root dirs name content)
  from_root dirs name content _ = refuse open_workspace_failed

  abbrev pub write_parts : Bytes → List Bytes → Bytes → Walk (Unit {0})
  write_parts root_path [] content = refuse invalid_path
  write_parts root_path (part ∷ parts) content =
      let name = file_name part parts in
      if is_special name then refuse invalid_path else (do
        o ← open_call (open_root root_path root_flags)
        from_root (dir_names part parts) name content o)

  -- writeWorkspaceFileNoSymlinkTraversal
  unfoldable pub write_no_symlinks : Bytes → Bytes → Bytes → Walk (Unit {0})
  write_no_symlinks root_path rel_path content =
      write_parts root_path (split slash rel_path) content
