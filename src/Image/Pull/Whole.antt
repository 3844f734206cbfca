-- ===== src/Image/Pull/Whole.antt =====
-- pullImage from its first check to the deferred removal, and what validateImage says of its images.
use sandkasten.Base.{
  ◌≡◌, refl, sym, ap, ◌∙◌, Bool, true, false, ◌||◌, Option, none, some, List, [], ◌∷◌, ◌++◌, map,
  Bool-cases, Option-cases, ◌⊎◌, inl, inr, arith,
}
use sandkasten.Base.Text.{Bytes, str_eq_refl}
use sandkasten.Image.Pull.{
  LayerSource, Written, written, not_created, written_partly, Injected, injected, not_copied,
  copied_partly, Source, PullError, digest_failed, layers_failed, parse_failed, pull_failed, Pulled,
  done, refused, Pulling, go_on, ◌>>=◌, ◌>>◌, need, store_meta, inject_runner, pull_into, undone,
  new_image, pull_image,
}
use sandkasten.Image.Store.{
  missing, unparsable, parsed, ImageDir, ImageStore, find_image, remove_image, set_meta,
  matches_pull_name,
}
use sandkasten.Image.Pull.Ends.{
  Grown, Grown-refl, Grown-trans, Ends, Any, Ends-check, Ends-need, AllThere, PulledLayers,
  Ends-pull_layers, digest_of, keep_roots, pulled_dir, PullEnds,
}

-- The images when the removal is still to come.
abbrev Into : Bytes → Source → ImageStore → Pulled (Unit {0}) × ImageStore → Type 0
Into name src s (done a, s') = PullEnds name src s (done a, s')
Into name src s (refused e, s') =
    (dir : ImageDir) × (dir.name ≡ name)
    × (s'.images ≡ dir ∷ s.images)
    × ((put : Bool) × (s'.has_runner ≡ (put || s.has_runner)))
    × ((new : List Bytes) × (s'.layers ≡ new ++ s.layers))

abbrev pub fresh_dir : Bytes → ImageDir
fresh_dir name = record { name = name; meta = missing; rootfs = none }

need_there :
    (ids : List Bytes) (e : PullError) (o : Option Bytes) (t : ImageStore)
    → AllThere t.layers ids
    → Ends (λ hash t'. AllThere t'.layers ids) t (need e o t)
need_there ids e none t a = Grown-refl t
need_there ids e (some h) t a = (Grown-refl t, a)

-- Images that do not have a name stay without it.
remove_image-none :
    (name : Bytes) (is : List ImageDir) → find_image name is ≡ none → remove_image name is ≡ is
unfolding find_image remove_image
remove_image-none name [] e = refl
remove_image-none name (i ∷ is) e = ground (arith, remove_image-none name is)

module _ (name : Bytes) (src : Source) (s : ImageStore) (valid : matches_pull_name name ≡ true)
    (free : find_image name s.images ≡ none)
    (keep : keep_roots src.data_dir src.layers ≡ true) where
  Into-bind :
      {A : Type 0} (P : A → ImageStore → Type 0) (m : Pulling A) (f : A → Pulling (Unit {0}))
      (t : ImageStore)
      → Grown (new_image name s) t
      → Ends P t (m t)
      → ((a : A) (t' : ImageStore)
          → Grown (new_image name s) t'
          → P a t'
          → Into name src s (f a t'))
      → Into name src s ((m >>= f) t)
  unfolding ◌>>=◌
  Into-bind {A} P m f t g p q = on (m t) p
    where
      on : (x : Pulled A × ImageStore) → Ends P t x → Into name src s (go_on x.0 f x.1)
      on (done a, t') (h, p) = q a t' (Grown-trans (new_image name s) t t' g h) p
      on (refused e, t') h = (
        fresh_dir name,
        refl,
        h.0 ∙ g.0,
        (false, h.1 ∙ g.1),
        (Grown-trans (new_image name s) t t' g h).2,
      )

  -- The meta file and the runner, behind the layers.
  Into-stored :
      (ls : List LayerSource) (ids : List Bytes) (hash : Bytes) (w : Written) (i : Injected)
      (t : ImageStore)
      → src.layers ≡ some ls
      → map digest_of ls ≡ map some ids
      → AllThere t.layers ids
      → Grown (new_image name s) t
      → Into name src s (
          (store_meta name
                (record { name = name; hash = hash; created_at = src.now; layers = ids })
                w
              >> inject_runner i)
            t)
  unfolding ◌>>=◌ inject_runner set_meta
  Into-stored ls ids hash not_created i t e d a g = (fresh_dir name, refl, g.0, (false, g.1), g.2)
  Into-stored ls ids hash written_partly i t e d a g = (
    record (fresh_dir name) { meta = unparsable },
    refl,
    rw (g.0, str_eq_refl name) refl,
    (false, g.1),
    g.2,
  )
  Into-stored ls ids hash written i t e d a g = injects i (Bool-cases t.has_runner)
    where
      dirs :
          set_meta name
            (parsed (record { name = name; hash = hash; created_at = src.now; layers = ids }))
            t.images
          ≡ pulled_dir name hash src.now ids ∷ s.images
      dirs = rw (g.0, str_eq_refl name) refl

      injects :
          (i : Injected)
          → (t.has_runner ≡ true) ⊎ (t.has_runner ≡ false)
          → Into name src s (
              (store_meta name
                    (record { name = name; hash = hash; created_at = src.now; layers = ids })
                    written
                  >> inject_runner i)
                t)
      injects i (inl h) = rw h (valid, free, (ls, ids, hash, e, d, dirs, a, refl), g.2)
      injects injected (inr h) = rw h (valid, free, (ls, ids, hash, e, d, dirs, a, refl), g.2)
      injects not_copied (inr h) =
          rw h (pulled_dir name hash src.now ids, refl, dirs, (false, sym h ∙ g.1), g.2)
      injects copied_partly (inr h) =
          rw h (pulled_dir name hash src.now ids, refl, dirs, (true, refl), g.2)

  Into-pull_into : Into name src s (pull_into name src (new_image name s))
  unfolding pull_into
  Into-pull_into =
      Into-bind Any _ _ (new_image name s) (Grown-refl (new_image name s))
        (Ends-check src.parses parse_failed (new_image name s))
        λ _ t1 g1 _.
          Into-bind Any _ _ t1 g1 (Ends-check src.finds_image pull_failed t1) λ _ t2 g2 _.
            Into-bind (λ ls t. src.layers ≡ some ls) _ _ t2 g2
              (Ends-need layers_failed src.layers t2)
              λ ls t3 g3 e.
                Into-bind (PulledLayers ls) _ _ t3 g3
                  (Ends-pull_layers src.data_dir ls t3
                    (ap (keep_roots src.data_dir) (sym e) ∙ keep))
                  λ ids t4 g4 (d, a).
                    Into-bind (λ hash t. AllThere t.layers ids) _ _ t4 g4
                      (need_there ids digest_failed src.digest t4 a)
                      λ hash t5 g5 a5.
                        Into-stored ls ids hash src.writes_meta src.injects t5 e d a5 g5

  undone-PullEnds :
      (x : Pulled (Unit {0}) × ImageStore)
      → Into name src s x
      → PullEnds name src s (undone name true x)
  unfolding remove_image
  undone-PullEnds (done a, t) i = i
  undone-PullEnds (refused e, t) (dir, named, images, put, layers) =
      (rw (images, named, str_eq_refl name) (remove_image-none name s.images free), put, layers)

-- However a pull ends, if the removal of the new image's directory does not fail and no layer's
-- extraction removes the layer's own directory: it has added the image
-- with a meta.json that names the digests of all layers in order, each of which has a directory, and
-- the runner is in place; or it ends with an error and the images are as they were. No layer's
-- directory is gone.
pub pull_image-PullEnds :
    (name : Bytes) (src : Source) (s : ImageStore)
    → src.removes ≡ true
    → keep_roots src.data_dir src.layers ≡ true
    → PullEnds name src s (pull_image name src s)
unfolding pull_image
pull_image-PullEnds name src s r k = elim (Bool-cases (matches_pull_name name)) [
  | inr m ↦ rw m (refl, (false, refl), ([], refl))
  | inl m ↦ elim (Option-cases (find_image name s.images)) [
    | inr (i, f) ↦ rw (m, f) (refl, (false, refl), ([], refl))
    | inl f ↦ elim (Bool-cases src.makes_dir) [
      | inr d ↦ rw (m, f, d) (refl, (false, refl), ([], refl))
      | inl d ↦
          rw (m, f, d, r)
            (undone-PullEnds name src s m f k (pull_into name src (new_image name s))
              (Into-pull_into name src s m f k))
    ]
  ]
]
