-- ===== src/Image/Layer.antt =====
-- cmd/sandkasten/commands_linux.go: how the entries of a layer's archive become files below the layer's
-- directory. What the disk answers to a call may depend on all calls made so far.
pub mod Seen
pub mod Scoped
pub mod Extracted
use sandkasten.Base.{
  ℕ, zero, suc, Bool, true, false, not, ◌&&◌, ◌||◌, Option, none, some, List, [], ◌∷◌, ◌++◌,
  if◌then◌else◌,
}
use sandkasten.Base.Text.{Bytes, codes, str_eq, has_prefix, trim_prefix}
use sandkasten.Base.Path.{slash, dot, dot_dot, split, is_abs, clean, join, base, dir}

pub data DiskCall : Type 0 where
  lstat readlink set_opaque make_whiteout make_dirs remove_all make_file : Bytes → DiskCall
  make_symlink make_link : Bytes → Bytes → DiskCall

-- What os.Lstat shows of a path.
pub data Shown : Type 0 where
  absent stat_refused symlink ordinary : Shown

-- The disk's answers; `readlinks` gives `none` on an error.
pub record Disk : Type 0 where
  pub shows : List DiskCall → Shown
  pub readlinks : List DiskCall → Option Bytes
  pub fails : List DiskCall → Bool

pub data LayerError : Type 0 where
  too_many_symlinks stat_failed readlink_failed escapes_rootfs archive_broken : LayerError
  call_failed : DiskCall → LayerError

pub data Result (A : Type 0) : Type 0 where
  done : A → Result A
  refused : LayerError → Result A

abbrev pub Step : Type 0 → Type 0
Step A = List DiskCall → Result A × List DiskCall

module _ {A : Type 0} where
  unfoldable pub give : A → Step A
  give a h = (done a, h)

  unfoldable pub refuse : LayerError → Step A
  refuse e h = (refused e, h)

unfoldable pub is_done : {A : Type 0} → Result A → Bool
is_done (done a) = true
is_done (refused e) = false

module _ {A B : Type 0} where
  abbrev pub go_on : Result A → (A → Step B) → Step B
  go_on (done a) f h = f a h
  go_on (refused e) f h = (refused e, h)

  infixl 5 ◌>>=◌ ◌>>◌
  unfoldable pub ◌>>=◌ : Step A → (A → Step B) → Step B
  ◌>>=◌ m f h = let (r, h') = m h in go_on r f h'

  abbrev pub ◌>>◌ : Step A → Step B → Step B
  m >> n = m >>= λ _. n

-- Where a symbolic link at a path leads, as a path of the archive.
unfoldable pub link_path : Bytes → Bytes → Bytes → Bytes
link_path root next target =
    let inside = trim_prefix root (dir next) in
    if is_abs target then target else join (if str_eq inside [] then slash ∷ [] else inside) target

abbrev pub depths : ℕ
depths = 256

-- What secureTargetPath makes of the resolved path: the path, and what it is below the root.
unfoldable pub checked : Bytes → Bytes → Step (Bytes × Bytes)
checked root target =
    if not (has_prefix (root ++ slash ∷ []) target) && not (str_eq target root)
    then refuse escapes_rootfs
    else give (target, trim_prefix (slash ∷ []) (trim_prefix root target))

module _ (d : Disk) where
  abbrev pub follow : Bytes → Bytes → (Bytes → Step Bytes) → Option Bytes → Step Bytes
  follow root next deeper none = refuse readlink_failed
  follow root next deeper (some target) = deeper (link_path root next target)

  abbrev pub found : Bytes → Bytes → (Bytes → Step Bytes) → Shown → Step Bytes
  found root next deeper absent h = give next h
  found root next deeper stat_refused h = refuse stat_failed h
  found root next deeper ordinary h = give next h
  found root next deeper symlink h =
      let h' = readlink next ∷ h in follow root next deeper (d.readlinks h') h'

  -- One element of the path, from where the elements before it lead.
  unfoldable pub look_up : Bytes → Bytes → (Bytes → Step Bytes) → Step Bytes
  look_up root next deeper h = let h' = lstat next ∷ h in found root next deeper (d.shows h') h'

  -- The loop of evalSymlinksInScope.
  unfoldable pub walk : Bytes → (Bytes → Step Bytes) → Bytes → List Bytes → Step Bytes
  unfolding look_up
  walk root deeper current [] = give current
  walk root deeper current (part ∷ parts) =
      if str_eq part [] || str_eq part dot
      then walk root deeper current parts
      else if str_eq part dot_dot
      then walk root deeper (if str_eq current root then current else dir current) parts
      else (do current' ← look_up root (join current part) deeper; walk root deeper current' parts)

  -- evalSymlinksInScope, with the depths that are left up to 255.
  unfoldable pub eval_symlinks_in_scope : ℕ → Bytes → Bytes → Step Bytes
  unfolding walk
  eval_symlinks_in_scope zero root path = refuse too_many_symlinks
  eval_symlinks_in_scope (suc n) root path =
      walk (clean root) (eval_symlinks_in_scope n (clean root)) (clean root)
        (split slash (clean (slash ∷ path)))

  unfoldable pub secure_target_path : Bytes → Bytes → Step (Bytes × Bytes)
  unfolding eval_symlinks_in_scope checked
  secure_target_path root path = do
    target ← eval_symlinks_in_scope depths root path
    checked root target

-- The kinds of an entry; a link holds what it links to.
pub data EntryKind : Type 0 where
  directory regular other : EntryKind
  symbolic hard : Bytes → EntryKind

pub record Entry : Type 0 where
  pub name : Bytes
  pub kind : EntryKind

-- What the reader of the archive gives: entries, and whether it ends with an error.
pub record Archive : Type 0 where
  pub entries : List Entry
  pub is_broken : Bool

abbrev pub opaque_marker : Bytes
opaque_marker = codes ".wh..wh..opq"

abbrev pub whiteout_mark : Bytes
whiteout_mark = codes ".wh."

module _ (d : Disk) where
  unfoldable pub perform : DiskCall → Step (Unit {0})
  perform c h = if d.fails (c ∷ h) then (refused (call_failed c), c ∷ h) else (done tt, c ∷ h)

  unfoldable pub drop_error : DiskCall → Step (Unit {0})
  drop_error c h = (done tt, c ∷ h)

  -- The directories above a target, and the target itself gone.
  abbrev pub clear_target : Bytes → Step (Unit {0})
  clear_target target = do perform (make_dirs (dir target)); perform (remove_all target)

  -- The switch on the kind. `make_file` stands for the opening, the copy and the close.
  abbrev pub extract_kind : Bytes → Bytes → EntryKind → Step (Unit {0})
  extract_kind root target directory = perform (make_dirs target)
  extract_kind root target regular = do clear_target target; perform (make_file target)
  extract_kind root target (symbolic link) = do
    clear_target target
    perform (make_symlink link target)
  extract_kind root target (hard link) = do
    clear_target target
    resolved ← secure_target_path d root link
    perform (make_link resolved.0 target)
  extract_kind root target other = give tt

  -- The body of the loop behind secureTargetPath.
  unfoldable pub extract_at : Bytes → EntryKind → Bytes × Bytes → Step (Unit {0})
  unfolding perform drop_error secure_target_path
  extract_at root kind (target, inside) =
      let name = base inside in
      if str_eq name opaque_marker
      then drop_error (set_opaque (dir target))
      else if has_prefix whiteout_mark name
      then perform (make_whiteout (join (dir target) (trim_prefix whiteout_mark name)))
      else extract_kind root target kind

  unfoldable pub extract_entries : Bytes → Bool → List Entry → Step (Unit {0})
  unfolding extract_at secure_target_path
  extract_entries root is_broken [] = if is_broken then refuse archive_broken else give tt
  extract_entries root is_broken (e ∷ es) = do
    placed ← secure_target_path d root e.name
    extract_at root e.kind placed
    extract_entries root is_broken es

  -- extractLayer
  unfoldable pub extract_layer : Bytes → Archive → Step (Unit {0})
  unfolding extract_entries
  extract_layer root a = extract_entries root a.is_broken a.entries

-- Among some calls is one that removes the layer's directory, as an entry with the name `.` does.
unfoldable pub takes_root : Bytes → List DiskCall → Bool
takes_root root [] = false
takes_root root (remove_all p ∷ h) = let rest = takes_root root h in str_eq p root || rest
takes_root root (c ∷ h) = takes_root root h
