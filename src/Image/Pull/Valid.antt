-- ===== src/Image/Pull/Valid.antt =====
-- Pulls against validateImage.
use sandkasten.Base.{
  ◌≡◌, refl, sym, ap, ◌∙◌, subst, map, Bool, true, false, ◌||◌, Option, none, some, List, [], ◌∷◌,
  ◌++◌, Bool-cases, inl, inr, arith,
}
use sandkasten.Base.Text.{Bytes, str_eq, str_eq_refl, eq_of_str_eq}
use sandkasten.Pool.{is_listed}
use sandkasten.Image.Pull.{Source, LayerSource, Pulled, done, refused, pull_image}
use sandkasten.Image.Store.{
  not_found, MetaFile, missing, unreadable, unparsable, parsed, Rootfs, ImageDir, ImageStore,
  find_image, first_missing, layers_invalid, meta_invalid, dir_invalid, found_invalid,
  validate_image,
}
use sandkasten.Image.Pull.Ends.{AllThere, keep_roots, is_listed-append, digest_of, PullEnds}
use sandkasten.Image.Pull.Whole.{pull_image-PullEnds}

first_missing-AllThere :
    (there ids : List Bytes) → AllThere there ids → first_missing there ids ≡ none
unfolding first_missing
first_missing-AllThere there [] a = refl
first_missing-AllThere there (id ∷ ids) (h, hs) = rw h (first_missing-AllThere there ids hs)

first_missing-append :
    (new there ids : List Bytes)
    → first_missing there ids ≡ none
    → first_missing (new ++ there) ids ≡ none
unfolding first_missing
first_missing-append new there [] e = refl
first_missing-append new there (id ∷ ids) e = elim (Bool-cases (is_listed id there)) [
  | inl h ↦ rw (is_listed-append new there id h) (
      first_missing-append new there ids
        (let f : first_missing there (id ∷ ids) ≡ none = e in ground arith))
  | inr h ↦ ground arith
]

-- What is valid stays valid where layers and the runner only come in.
layers_invalid-Grown :
    (put has_runner : Bool) (o o' : Option Bytes)
    → (o ≡ none → o' ≡ none)
    → layers_invalid has_runner o ≡ none
    → layers_invalid (put || has_runner) o' ≡ none
layers_invalid-Grown put b (some l) o' f e = cc e
layers_invalid-Grown put false none o' f e = cc e
layers_invalid-Grown true true none o' f e = let g : o' ≡ none = f refl in rw g refl
layers_invalid-Grown false true none o' f e = let g : o' ≡ none = f refl in rw g refl

meta_invalid-Grown :
    (s s' : ImageStore) (put : Bool) (new : List Bytes) (rootfs : Option Rootfs) (ids : List Bytes)
    → s'.has_runner ≡ (put || s.has_runner)
    → s'.layers ≡ new ++ s.layers
    → meta_invalid s rootfs ids ≡ none
    → meta_invalid s' rootfs ids ≡ none
meta_invalid-Grown s s' put new rootfs [] r l e = e
meta_invalid-Grown s s' put new rootfs (id ∷ ids) r l e =
    rw (r, l)
      (layers_invalid-Grown put s.has_runner (first_missing s.layers (id ∷ ids)) _
        (first_missing-append new s.layers (id ∷ ids)) e)

found_invalid-Grown :
    (s s' : ImageStore) (put : Bool) (new : List Bytes) (i : Option ImageDir)
    → s'.has_runner ≡ (put || s.has_runner)
    → s'.layers ≡ new ++ s.layers
    → found_invalid s i ≡ none
    → found_invalid s' i ≡ none
found_invalid-Grown s s' put new none r l e = cc e
found_invalid-Grown s s' put new (some i) r l e = dir i.meta e
  where
    dir : (m : MetaFile) → dir_invalid s i.rootfs m ≡ none → dir_invalid s' i.rootfs m ≡ none
    dir missing e = cc e
    dir unreadable e = cc e
    dir unparsable e = cc e
    dir (parsed m) e = meta_invalid-Grown s s' put new i.rootfs m.layers r l e

-- A pull, however it ends, does not spoil an image that was valid, if the removal of the new image's
-- directory does not fail and no layer's extraction removes the layer's own directory.
pub validate_image-pull_image :
    (name other : Bytes) (src : Source) (s : ImageStore)
    → src.removes ≡ true
    → keep_roots src.data_dir src.layers ≡ true
    → validate_image s other ≡ none
    → validate_image (pull_image name src s).1 other ≡ none
unfolding validate_image
validate_image-pull_image name other src s r k v =
    kept (pull_image name src s) (pull_image-PullEnds name src s r k)
  where
    kept :
        (x : Pulled (Unit {0}) × ImageStore)
        → PullEnds name src s x
        → found_invalid x.1 (find_image other x.1.images) ≡ none
    kept (refused e, t) (images, (put, runner), (new, layers)) =
        rw images (found_invalid-Grown s t put new (find_image other s.images) runner layers v)
    kept (done a, t) (valid, free, (ls, ids, hash, e, d, images, there, runner), (new, layers)) =
        rw images (
          let rest = found_invalid-Grown s t true new (find_image other s.images) runner layers v in
          unfold find_image in
          elim (Bool-cases (str_eq name other)) [
            | inl h ↦
                let gone : find_image other s.images ≡ none =
                  ap (λ (n : Bytes). find_image n s.images) (sym (eq_of_str_eq name other h))
                  ∙ free in
                let no : some not_found ≡ none = ap (found_invalid s) (sym gone) ∙ v in cc no
            | inr h ↦ rw h rest
          ])

-- An image with at least one layer is valid when its pull has ended well, if the removal of its
-- directory would not fail and no layer's extraction removes the layer's own directory.
pub pull_image-valid :
    (name : Bytes) (src : Source) (s t : ImageStore) (l : LayerSource) (ls : List LayerSource)
    → src.removes ≡ true
    → keep_roots src.data_dir src.layers ≡ true
    → src.layers ≡ some (l ∷ ls)
    → pull_image name src s ≡ (done tt, t)
    → validate_image t name ≡ none
unfolding validate_image
pull_image-valid name src s t l ls r k given e =
    let p : PullEnds name src s (done tt, t) =
      subst (PullEnds name src s) e (pull_image-PullEnds name src s r k) in
    ended p
  where
    named :
        (ls' : List LayerSource) (ids : List Bytes)
        → ls' ≡ l ∷ ls
        → map digest_of ls' ≡ map some ids
        → AllThere t.layers ids
        → t.has_runner ≡ true
        → meta_invalid t none ids ≡ none
    named ls' [] q d there runner = cc (ap (map digest_of) (sym q) ∙ d)
    named ls' (id ∷ ids) q d there runner =
        rw (first_missing-AllThere t.layers (id ∷ ids) there, runner) refl

    ended : PullEnds name src s (done tt, t) → found_invalid t (find_image name t.images) ≡ none
    ended (valid, free, (ls', ids, hash, e', d, images, there, runner), new) =
        let same : ls' ≡ l ∷ ls = cc (e', given) in
        rw images (unfold find_image in rw (str_eq_refl name) (named ls' ids same d there runner))
