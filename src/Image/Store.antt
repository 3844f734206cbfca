-- ===== src/Image/Store.antt =====
-- cmd/sandkasten/commands_linux.go: the images in the data directory, their names, and validateImage.
use sandkasten.Base.{
  ℕ, Bool, false, not, ◌&&◌, ◌||◌, Option, none, some, List, [], ◌∷◌, ◌==◌, if◌then◌else◌,
}
use sandkasten.Base.Text.{Bytes, str_eq}
use sandkasten.Pool.{is_listed}
use sandkasten.Session.{is_alnum, all_bytes}

-- The regular expression ^[a-zA-Z0-9][a-zA-Z0-9._-]*$
abbrev pub is_pull_byte : ℕ → Bool
is_pull_byte c = is_alnum c || (c == b'.' || (c == b'_' || c == b'-'))

unfoldable pub matches_pull_name : Bytes → Bool
unfolding all_bytes
matches_pull_name [] = false
matches_pull_name (c ∷ s) = is_alnum c && all_bytes is_pull_byte s

pub record ImageMeta : Type 0 where
  pub name : Bytes
  pub hash : Bytes
  pub created_at : ℕ
  pub layers : List Bytes

-- What reading and parsing meta.json gives.
pub data MetaFile : Type 0 where
  missing unreadable unparsable : MetaFile
  parsed : ImageMeta → MetaFile

-- The files of an image that is not made of layers.
pub record Rootfs : Type 0 where
  pub has_sh : Bool
  pub has_runner : Bool
  pub stats_runner : Bool
  pub is_executable : Bool

-- An image's directory.
pub record ImageDir : Type 0 where
  pub name : Bytes
  pub meta : MetaFile
  pub rootfs : Option Rootfs

-- The data directory: the images, the layers that have a rootfs directory, those of them that were
-- extracted to their end, and whether the runner's layer holds the runner.
pub record ImageStore : Type 0 where
  pub images : List ImageDir
  pub layers : List Bytes
  pub whole : List Bytes
  pub has_runner : Bool

unfoldable pub find_image : Bytes → List ImageDir → Option ImageDir
find_image name [] = none
find_image name (i ∷ is) = if str_eq i.name name then some i else find_image name is

unfoldable pub remove_image : Bytes → List ImageDir → List ImageDir
remove_image name [] = []
remove_image name (i ∷ is) =
    let rest = remove_image name is in if str_eq i.name name then rest else i ∷ rest

unfoldable pub set_meta : Bytes → MetaFile → List ImageDir → List ImageDir
set_meta name m [] = []
set_meta name m (i ∷ is) =
    if str_eq i.name name then record i { meta = m } ∷ is else i ∷ set_meta name m is

pub data Invalid : Type 0 where
  not_found read_failed bad_meta rootfs_not_found required_missing stat_runner_failed not_executable
        runner_layer_missing :
      Invalid
  missing_layer : Bytes → Invalid

-- The first layer that is not there.
unfoldable pub first_missing : List Bytes → List Bytes → Option Bytes
first_missing there [] = none
first_missing there (l ∷ ls) = if is_listed l there then first_missing there ls else some l

abbrev pub layers_invalid : Bool → Option Bytes → Option Invalid
layers_invalid has_runner (some l) = some (missing_layer l)
layers_invalid has_runner none = if has_runner then none else some runner_layer_missing

abbrev rootfs_invalid : Option Rootfs → Option Invalid
rootfs_invalid none = some rootfs_not_found
rootfs_invalid (some r) =
    if not r.has_sh
    then some required_missing
    else if not r.has_runner
    then some required_missing
    else if not r.stats_runner
    then some stat_runner_failed
    else if r.is_executable
    then none
    else some not_executable

abbrev pub meta_invalid : ImageStore → Option Rootfs → List Bytes → Option Invalid
meta_invalid s rootfs [] = rootfs_invalid rootfs
meta_invalid s rootfs (l ∷ ls) = layers_invalid s.has_runner (first_missing s.layers (l ∷ ls))

abbrev pub dir_invalid : ImageStore → Option Rootfs → MetaFile → Option Invalid
dir_invalid s rootfs missing = some not_found
dir_invalid s rootfs unreadable = some read_failed
dir_invalid s rootfs unparsable = some bad_meta
dir_invalid s rootfs (parsed m) = meta_invalid s rootfs m.layers

abbrev pub found_invalid : ImageStore → Option ImageDir → Option Invalid
found_invalid s none = some not_found
found_invalid s (some i) = dir_invalid s i.rootfs i.meta

-- validateImage, which gives the error or none.
unfoldable pub validate_image : ImageStore → Bytes → Option Invalid
unfolding find_image first_missing
validate_image s name = found_invalid s (find_image name s.images)
