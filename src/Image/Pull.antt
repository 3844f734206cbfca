-- ===== src/Image/Pull.antt =====
-- cmd/sandkasten/commands_linux.go: pullImage, over what it keeps in the data
-- directory (Image/Store). What the registry gives, and which system calls fail, are arguments.
pub mod Ends
pub mod Whole
pub mod Valid
pub mod Names
use sandkasten.Base.{
  ℕ, Bool, true, false, not, ◌&&◌, ◌||◌, Option, none, some, List, [], ◌∷◌, ◌++◌, ◌==◌, leb,
  if◌then◌else◌,
}
use sandkasten.Base.Text.{Bytes, codes, str_eq}
use sandkasten.Base.Path.{join}
use sandkasten.Pool.{is_listed}
use sandkasten.Session.{is_alnum, all_bytes}
use sandkasten.Image.Layer.{DiskCall, Disk, Result, Archive, extract_layer, takes_root, is_done}
use sandkasten.Image.Store.{
  ImageMeta, MetaFile, parsed, missing, unparsable, ImageDir, ImageStore, find_image, remove_image,
  set_meta, matches_pull_name,
}

-- A layer as the registry gives it, and how the calls for it end; what the disk answers while it is
-- extracted; and what the extraction makes of the rest of the data directory once it has removed the
-- layer's own directory, where a link may then lead anywhere.
pub record LayerSource : Type 0 where
  pub digest : Option Bytes
  pub makes_dir : Bool
  pub opens : Bool
  pub archive : Archive
  pub disk : Disk
  pub damage : ImageStore → ImageStore
  pub closes : Bool

-- How writeMeta ends: a failure may leave a file that cannot be parsed.
pub data Written : Type 0 where
  written not_created written_partly : Written

-- How the copy of the runner ends: a failure may leave a file.
pub data Injected : Type 0 where
  injected not_copied copied_partly : Injected

-- A pull: the parsed reference, the image, its layers and its digest, and how the other calls end.
pub record Source : Type 0 where
  pub data_dir : Bytes
  pub makes_dir : Bool
  pub parses : Bool
  pub finds_image : Bool
  pub layers : Option (List LayerSource)
  pub digest : Option Bytes
  pub now : ℕ
  pub writes_meta : Written
  pub injects : Injected
  pub removes : Bool

pub data PullError : Type 0 where
  invalid_name already_exists create_dir_failed parse_failed pull_failed layers_failed : PullError
  layer_digest_failed create_layer_failed open_failed extract_failed close_failed : PullError
  digest_failed write_meta_failed inject_failed remove_failed : PullError

pub data Pulled (A : Type 0) : Type 0 where
  done : A → Pulled A
  refused : PullError → Pulled A

abbrev pub Pulling : Type 0 → Type 0
Pulling A = ImageStore → Pulled A × ImageStore

module _ {A : Type 0} where
  unfoldable pub give : A → Pulling A
  give a s = (done a, s)

  unfoldable pub refuse : PullError → Pulling A
  refuse e s = (refused e, s)

  -- A result that the registry gives, or its error.
  abbrev pub need : PullError → Option A → Pulling A
  need e none s = (refused e, s)
  need e (some a) s = (done a, s)

module _ {A B : Type 0} where
  abbrev pub go_on : Pulled A → (A → Pulling B) → Pulling B
  go_on (done a) f s = f a s
  go_on (refused e) f s = (refused e, s)

  infixl 5 ◌>>=◌ ◌>>◌
  unfoldable pub ◌>>=◌ : Pulling A → (A → Pulling B) → Pulling B
  ◌>>=◌ m f s = let (r, s') = m s in go_on r f s'

  abbrev pub ◌>>◌ : Pulling A → Pulling B → Pulling B
  m >> n = m >>= λ _. n

unfoldable pub check : Bool → PullError → Pulling (Unit {0})
check true e s = (done tt, s)
check false e s = (refused e, s)

abbrev pub add_layer : Bytes → ImageStore → ImageStore
add_layer id s = record s { layers = id ∷ s.layers }

abbrev pub layer_root : Bytes → Bytes → Bytes
layer_root data_dir id = join (join (join data_dir (codes "layers")) id) (codes "rootfs")

-- The calls of a layer's extraction.
abbrev pub layer_calls : Bytes → LayerSource → Bytes → Result (Unit {0}) × List DiskCall
layer_calls data_dir l id = extract_layer l.disk (layer_root data_dir id) l.archive []

-- os.MkdirAll of a layer's rootfs, and extractLayer.
unfoldable pub make_layer : Bytes → Bool → Pulling (Unit {0})
make_layer id true s = (done tt, add_layer id s)
make_layer id false s = (refused create_layer_failed, s)

abbrev pub extracted : Bytes → Bool → Pulling (Unit {0})
extracted id true s = (done tt, record s { whole = id ∷ s.whole })
extracted id false s = (refused extract_failed, s)

unfoldable pub extract : Bytes → Bytes → LayerSource → Pulling (Unit {0})
unfolding extract_layer takes_root is_done
extract data_dir id l s =
    let (r, calls) = layer_calls data_dir l id in
    extracted id (is_done r) (if takes_root (layer_root data_dir id) calls then l.damage s else s)

abbrev pub fetch_layer : Bytes → Bytes → LayerSource → Pulling (Unit {0})
fetch_layer data_dir id l = do
  make_layer id l.makes_dir
  check l.opens open_failed
  extract data_dir id l
  check l.closes close_failed

abbrev pub fetched : Bytes → Bytes → LayerSource → Pulling Bytes
fetched data_dir id l = do fetch_layer data_dir id l; give id

-- A layer whose rootfs directory is there is not fetched.
unfoldable pub fetch_missing : Bytes → LayerSource → Bytes → Pulling Bytes
unfolding make_layer check extract give
fetch_missing data_dir l id s =
    if is_listed id s.layers then (done id, s) else fetched data_dir id l s

-- The body of the loop over the layers.
unfoldable pub pull_layer : Bytes → LayerSource → Pulling Bytes
unfolding fetch_missing
pull_layer data_dir l = do id ← need layer_digest_failed l.digest; fetch_missing data_dir l id

unfoldable pub pull_layers : Bytes → List LayerSource → Pulling (List Bytes)
unfolding pull_layer give
pull_layers data_dir [] = give []
pull_layers data_dir (l ∷ ls) = do
  id ← pull_layer data_dir l
  ids ← pull_layers data_dir ls
  give (id ∷ ids)

abbrev pub store_meta : Bytes → ImageMeta → Written → Pulling (Unit {0})
store_meta name m written s = (done tt, record s { images = set_meta name (parsed m) s.images })
store_meta name m not_created s = (refused write_meta_failed, s)
store_meta name m written_partly s =
    (refused write_meta_failed, record s { images = set_meta name unparsable s.images })

abbrev pub copy_runner : Injected → Pulling (Unit {0})
copy_runner injected s = (done tt, record s { has_runner = true })
copy_runner not_copied s = (refused inject_failed, s)
copy_runner copied_partly s = (refused inject_failed, record s { has_runner = true })

unfoldable pub inject_runner : Injected → Pulling (Unit {0})
inject_runner i s = if s.has_runner then (done tt, s) else copy_runner i s

-- What stands behind the deferred removal.
unfoldable pub pull_into : Bytes → Source → Pulling (Unit {0})
unfolding check pull_layers set_meta inject_runner
pull_into name src = do
  check src.parses parse_failed
  check src.finds_image pull_failed
  sources ← need layers_failed src.layers
  ids ← pull_layers src.data_dir sources
  hash ← need digest_failed src.digest
  store_meta name (record { name = name; hash = hash; created_at = src.now; layers = ids })
      src.writes_meta
  inject_runner src.injects

abbrev pub undone : Bytes → Bool → Pulled (Unit {0}) × ImageStore → Pulled (Unit {0}) × ImageStore
undone name removes (done a, s) = (done a, s)
undone name true (refused e, s) = (refused e, record s { images = remove_image name s.images })
undone name false (refused e, s) = (refused e, s)

abbrev pub is_there : Option ImageDir → Bool
is_there none = false
is_there (some i) = true

abbrev pub new_image : Bytes → ImageStore → ImageStore
new_image name s = record s {
  images = record { name = name; meta = missing; rootfs = none } ∷ s.images;
}

-- pullImage
unfoldable pub pull_image : Bytes → Source → Pulling (Unit {0})
unfolding pull_into find_image remove_image matches_pull_name
pull_image name src s =
    if not (matches_pull_name name)
    then (refused invalid_name, s)
    else if is_there (find_image name s.images)
    then (refused already_exists, s)
    else if not src.makes_dir
    then (refused create_dir_failed, s)
    else undone name src.removes (pull_into name src (new_image name s))
