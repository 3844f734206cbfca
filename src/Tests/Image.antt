-- ===== src/Tests/Image.antt =====
-- Runs of the model of the image commands on concrete inputs.
use sandkasten.Base.{◌≡◌, ◌≢◌, refl, true, false, not, ◌&&◌, none, some, [], ◌∷◌, All, leb, length}
use sandkasten.Base.Text.{codes, str_eq, has_byte}
use sandkasten.Base.Path.{slashed}
use sandkasten.Base.Path.Rooted.{IsPlain}
use sandkasten.Pool.{is_listed}
use sandkasten.Session.{is_alnum, all_bytes, is_image_name_safe}
use sandkasten.Image.Layer.{
  Disk, symlink, ordinary, regular, symbolic, refused, escapes_rootfs, Archive, extract_layer,
  takes_root,
}
use sandkasten.Image.Layer.Seen.{AllNames}
use sandkasten.Image.Layer.Extracted.{extract_layer-Names}
use sandkasten.Image.Pull.{
  LayerSource, Source, written, injected, done, pull_image, pull_into, pull_layers, pull_layer,
  fetch_missing, make_layer, check, extract, give, ◌>>=◌, inject_runner,
}
use sandkasten.Image.Store.{ImageStore, matches_pull_name, set_meta, find_image, validate_image}
use sandkasten.Image.Pull.Ends.{PullEnds, all_keep, keep_roots}
use sandkasten.Image.Pull.Whole.{pull_image-PullEnds}
use sandkasten.Image.Pull.Valid.{validate_image-pull_image, pull_image-valid}
use sandkasten.Image.Pull.Names.{is_image_name_safe-matches_pull_name}

-- A layer with a link to `/..`, and a file that is put behind it; every path is a link at first.
abbrev archive : Archive
archive = record {
  entries =
      record { name = codes "a"; kind = symbolic (codes "/../etc") }
      ∷ record { name = codes "../a/b"; kind = regular }
      ∷ [];
  is_broken = false;
}

abbrev disk : Disk
disk = record {
  shows = λ h. elim (leb (length h) 6) [ true ↦ ordinary | false ↦ symlink ];
  readlinks = λ h. some (codes "../../etc");
  fails = λ h. false;
}

root-IsPlain : All IsPlain (codes "layers" ∷ codes "rootfs" ∷ [])
root-IsPlain =
    unfold str_eq has_byte in
    (
      record { no_slash = refl; nonempty = refl; no_dot = refl; no_dot_dot = refl },
      (record { no_slash = refl; nonempty = refl; no_dot = refl; no_dot_dot = refl }, tt),
    )

extract_layer-Names_example :
    AllNames disk
      (codes "layers" ∷ codes "rootfs" ∷ [])
      (extract_layer disk (slashed (codes "layers" ∷ codes "rootfs" ∷ [])) archive []).1
    × ((extract_layer disk (slashed (codes "layers" ∷ codes "rootfs" ∷ [])) archive []).0
        ≢ refused escapes_rootfs)
extract_layer-Names_example =
    extract_layer-Names disk (codes "layers") (codes "rootfs" ∷ []) archive root-IsPlain

abbrev layer : LayerSource
layer = record {
  digest = some (codes "ab12");
  makes_dir = true;
  opens = true;
  archive = record {
    entries = record { name = codes "a"; kind = regular } ∷ [];
    is_broken = false;
  };
  disk = record { shows = λ h. ordinary; readlinks = λ h. none; fails = λ h. false };
  damage = λ s. s;
  closes = true;
}

abbrev source : Source
source = record {
  data_dir = codes "/d";
  makes_dir = true;
  parses = true;
  finds_image = true;
  layers = some (layer ∷ layer ∷ []);
  digest = some (codes "sha256:cd34");
  now = 7;
  writes_meta = written;
  injects = injected;
  removes = true;
}

abbrev empty_store : ImageStore
empty_store = record { images = []; layers = []; whole = []; has_runner = false }

abbrev pulled : ImageStore
pulled = (pull_image (codes "python") source empty_store).1

ends : pull_image (codes "python") source empty_store ≡ (done tt, pulled)
unfolding pull_image pull_into pull_layers pull_layer fetch_missing make_layer check extract give
    ◌>>=◌ set_meta inject_runner find_image matches_pull_name is_alnum all_bytes is_listed str_eq
    sandkasten.Image.Layer.◌>>=◌ sandkasten.Image.Layer.give sandkasten.Base.Path.split
    sandkasten.Base.Path.clean sandkasten.Base.Text.has_prefix sandkasten.Base.Path.join
    sandkasten.Base.Path.base sandkasten.Base.Text.trim_prefix
ends = refl

roots_kept : keep_roots source.data_dir source.layers ≡ true
unfolding all_keep takes_root extract_layer sandkasten.Image.Layer.◌>>=◌ sandkasten.Image.Layer.give
    sandkasten.Base.Path.split sandkasten.Base.Path.clean sandkasten.Base.Text.has_prefix
    sandkasten.Base.Path.join sandkasten.Base.Path.base sandkasten.Base.Text.trim_prefix
roots_kept = refl

pull_image-PullEnds_example :
    PullEnds (codes "python") source empty_store (pull_image (codes "python") source empty_store)
pull_image-PullEnds_example =
    pull_image-PullEnds (codes "python") source empty_store refl roots_kept

pull_image-valid_example : validate_image pulled (codes "python") ≡ none
pull_image-valid_example =
    pull_image-valid (codes "python") source empty_store pulled layer (layer ∷ []) refl roots_kept
      refl ends

validate_image-pull_image_example :
    validate_image (pull_image (codes "base") source pulled).1 (codes "python") ≡ none
validate_image-pull_image_example =
    validate_image-pull_image (codes "base") (codes "python") source pulled refl roots_kept (
      pull_image-valid (codes "python") source empty_store pulled layer (layer ∷ []) refl roots_kept
        refl ends)

is_image_name_safe-matches_pull_name_example : is_image_name_safe (codes "python3.12") ≡ (
    matches_pull_name (codes "python3.12")
    && (not (has_byte b'.' (codes "python3.12")) && leb (length (codes "python3.12")) 64))
is_image_name_safe-matches_pull_name_example =
    is_image_name_safe-matches_pull_name (codes "python3.12")
