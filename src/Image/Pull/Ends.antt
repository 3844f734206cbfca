-- ===== src/Image/Pull/Ends.antt =====
-- How a pull of an image ends, and what it leaves in the data directory.
use sandkasten.Base.{
  ◌≡◌, refl, sym, ◌∙◌, ap, not, ◌&&◌, ℕ, Bool, true, false, ◌||◌, Option, none, some, List, [], ◌∷◌,
  ◌++◌, map, append_assoc, All, Bool-cases, inl, inr, arith,
}
use sandkasten.Base.Text.{Bytes, str_eq_refl}
use sandkasten.Pool.{is_listed}
use sandkasten.Image.Pull.{
  LayerSource, Source, PullError, layer_digest_failed, open_failed, close_failed, Pulled, done,
  refused, Pulling, give, need, go_on, ◌>>=◌, check, make_layer, extract, fetch_layer,
  fetch_missing, pull_layer, pull_layers, layer_root, layer_calls, extracted,
}
use sandkasten.Image.Layer.{takes_root, is_done}
use sandkasten.Image.Store.{parsed, ImageDir, ImageStore, find_image, matches_pull_name}

-- The images and the runner are the same, and no layer is gone.
abbrev pub Grown : ImageStore → ImageStore → Type 0
Grown s s' =
    (s'.images ≡ s.images)
    × (s'.has_runner ≡ s.has_runner)
    × ((new : List Bytes) × (s'.layers ≡ new ++ s.layers))

pub Grown-refl : (s : ImageStore) → Grown s s
Grown-refl s = (refl, refl, ([], refl))

pub Grown-trans : (s s' s'' : ImageStore) → Grown s s' → Grown s' s'' → Grown s s''
Grown-trans s s' s'' (i, h, (new, e)) (j, k, (new', f)) =
    (j ∙ i, k ∙ h, (new' ++ new, rw (f, e) (sym (append_assoc new' new s.layers))))

-- A step only adds to the layers; with what it gives, if it does.
module _ {A : Type 0} where
  abbrev pub Ends : (A → ImageStore → Type 0) → ImageStore → Pulled A × ImageStore → Type 0
  Ends P s (done a, s') = Grown s s' × P a s'
  Ends P s (refused e, s') = Grown s s'

  Ends-later :
      (P : A → ImageStore → Type 0) (s s' : ImageStore) (x : Pulled A × ImageStore)
      → Grown s s'
      → Ends P s' x
      → Ends P s x
  Ends-later P s s' (done a, t) g (h, p) = (Grown-trans s s' t g h, p)
  Ends-later P s s' (refused e, t) g h = Grown-trans s s' t g h

module _ {A B : Type 0} where
  Ends-bind :
      (P : A → ImageStore → Type 0) (Q : B → ImageStore → Type 0) (m : Pulling A)
      (f : A → Pulling B) (s : ImageStore)
      → Ends P s (m s)
      → ((a : A) (s' : ImageStore) → P a s' → Ends Q s' (f a s'))
      → Ends Q s ((m >>= f) s)
  unfolding ◌>>=◌
  Ends-bind P Q m f s p q = on (m s) p
    where
      on : (x : Pulled A × ImageStore) → Ends P s x → Ends Q s (go_on x.0 f x.1)
      on (done a, s') (g, p) = Ends-later Q s s' (f a s') g (q a s' p)
      on (refused e, s') g = g

abbrev pub Any : {A : Type 0} → A → ImageStore → Type 0
Any a s = Unit {0}

pub Ends-check : (b : Bool) (e : PullError) (s : ImageStore) → Ends Any s (check b e s)
unfolding check
Ends-check true e s = (Grown-refl s, tt)
Ends-check false e s = Grown-refl s

-- All of these layers have a directory.
abbrev pub AllThere : List Bytes → List Bytes → Type 0
AllThere there ids = All (λ (id : Bytes). is_listed id there ≡ true) ids

pub is_listed-append :
    (new : List Bytes) (there : List Bytes) (id : Bytes)
    → is_listed id there ≡ true
    → is_listed id (new ++ there) ≡ true
unfolding is_listed
is_listed-append [] there id h = h
is_listed-append (n ∷ new) there id h = let ih = is_listed-append new there id h in ground arith

pub AllThere-append :
    (new there ids : List Bytes) → AllThere there ids → AllThere (new ++ there) ids
AllThere-append new there [] a = tt
AllThere-append new there (id ∷ ids) (h, hs) =
    (is_listed-append new there id h, AllThere-append new there ids hs)

-- Layers that are there stay there.
AllThere-Grown :
    (s t : ImageStore) (ids : List Bytes)
    → Grown s t
    → AllThere s.layers ids
    → AllThere t.layers ids
AllThere-Grown s t ids (_, _, (new, e)) a = rw e (AllThere-append new s.layers ids a)

pub Ends-AllThere :
    {A : Type 0} (P : A → ImageStore → Type 0) (ids : List Bytes) (s : ImageStore)
    (x : Pulled A × ImageStore)
    → AllThere s.layers ids
    → Ends P s x
    → Ends (λ a t. P a t × AllThere t.layers ids) s x
Ends-AllThere P ids s (done a, t) there (g, p) = (g, (p, AllThere-Grown s t ids g there))
Ends-AllThere P ids s (refused e, t) there g = g

abbrev There : {A : Type 0} → Bytes → A → ImageStore → Type 0
There id a s = AllThere s.layers (id ∷ [])

-- A step behind which nothing is lost and a layer is there.
stays :
    (id : Bytes) (m : Pulling (Unit {0})) (s : ImageStore)
    → Ends Any s (m s)
    → There id tt s
    → Ends (There id) s (m s)
stays id m s e there = drop_first (m s) (Ends-AllThere Any (id ∷ []) s (m s) there e)
  where
    drop_first :
        (x : Pulled (Unit {0}) × ImageStore)
        → Ends (λ a t. Any a t × AllThere t.layers (id ∷ [])) s x
        → Ends (There id) s x
    drop_first (done a, t) (g, (_, h)) = (g, h)
    drop_first (refused e, t) g = g

Ends-make_layer : (id : Bytes) (b : Bool) (s : ImageStore) → Ends (There id) s (make_layer id b s)
unfolding make_layer is_listed
Ends-make_layer id true s =
    ((refl, refl, (id ∷ [], refl)), (let e = str_eq_refl id in ground arith, tt))
Ends-make_layer id false s = Grown-refl s

-- A layer's extraction does not remove the layer's own directory.
abbrev pub keeps_root : Bytes → LayerSource → Option Bytes → Bool
keeps_root data_dir l none = true
keeps_root data_dir l (some id) =
    not (takes_root (layer_root data_dir id) (layer_calls data_dir l id).1)

unfoldable pub all_keep : Bytes → List LayerSource → Bool
all_keep data_dir [] = true
all_keep data_dir (l ∷ ls) =
    let rest = all_keep data_dir ls in keeps_root data_dir l l.digest && rest

abbrev pub keep_roots : Bytes → Option (List LayerSource) → Bool
keep_roots data_dir none = true
keep_roots data_dir (some ls) = all_keep data_dir ls

Ends-extracted : (id : Bytes) (b : Bool) (s : ImageStore) → Ends Any s (extracted id b s)
Ends-extracted id true s = ((refl, refl, ([], refl)), tt)
Ends-extracted id false s = Grown-refl s

Ends-extract :
    (data_dir id : Bytes) (l : LayerSource) (s : ImageStore)
    → takes_root (layer_root data_dir id) (layer_calls data_dir l id).1 ≡ false
    → Ends Any s (extract data_dir id l s)
unfolding extract
Ends-extract data_dir id l s k = rw k (Ends-extracted id (is_done (layer_calls data_dir l id).0) s)

Ends-fetch_layer :
    (data_dir id : Bytes) (l : LayerSource) (s : ImageStore)
    → takes_root (layer_root data_dir id) (layer_calls data_dir l id).1 ≡ false
    → Ends (There id) s (fetch_layer data_dir id l s)
Ends-fetch_layer data_dir id l s k =
    Ends-bind (There id) (There id) _ _ s (Ends-make_layer id l.makes_dir s) λ _ s1 h1.
      Ends-bind (There id) (There id) _ _ s1
        (stays id (check l.opens open_failed) s1 (Ends-check l.opens open_failed s1) h1)
        λ _ s2 h2.
          Ends-bind (There id) (There id) _ _ s2
            (stays id (extract data_dir id l) s2 (Ends-extract data_dir id l s2 k) h2)
            λ _ s3 h3.
              stays id (check l.closes close_failed) s3 (Ends-check l.closes close_failed s3) h3

-- What a pull of layers ends with: their digests, in order, each with a directory.
abbrev pub digest_of : LayerSource → Option Bytes
digest_of l = l.digest

abbrev PulledLayer : LayerSource → Bytes → ImageStore → Type 0
PulledLayer l id s = (l.digest ≡ some id) × AllThere s.layers (id ∷ [])

abbrev pub PulledLayers : List LayerSource → List Bytes → ImageStore → Type 0
PulledLayers ls ids s = (map digest_of ls ≡ map some ids) × AllThere s.layers ids

pub Ends-need :
    {A : Type 0} (e : PullError) (o : Option A) (s : ImageStore)
    → Ends (λ a t. o ≡ some a) s (need e o s)
Ends-need e none s = Grown-refl s
Ends-need e (some a) s = (Grown-refl s, refl)

kept : {b : Bool} → not b ≡ true → b ≡ false
kept h = ground arith

Ends-fetch_missing :
    (data_dir : Bytes) (l : LayerSource) (id : Bytes) (s : ImageStore)
    → keeps_root data_dir l l.digest ≡ true
    → l.digest ≡ some id
    → Ends (PulledLayer l) s (fetch_missing data_dir l id s)
unfolding fetch_missing
Ends-fetch_missing data_dir l id s k e = elim (Bool-cases (is_listed id s.layers)) [
  | inl h ↦ rw h (Grown-refl s, (e, (h, tt)))
  | inr h ↦ rw h (
      Ends-bind (There id) (PulledLayer l) _ _ s
        (Ends-fetch_layer data_dir id l s (kept (ap (keeps_root data_dir l) (sym e) ∙ k)))
        (λ _ t there. unfold give in (Grown-refl t, (e, there))))
]

Ends-pull_layer :
    (data_dir : Bytes) (l : LayerSource) (s : ImageStore)
    → keeps_root data_dir l l.digest ≡ true
    → Ends (PulledLayer l) s (pull_layer data_dir l s)
unfolding pull_layer
Ends-pull_layer data_dir l s k =
    Ends-bind (λ a t. l.digest ≡ some a) (PulledLayer l) _ _ s
      (Ends-need layer_digest_failed l.digest s) (λ id t e. Ends-fetch_missing data_dir l id t k e)

pub Ends-pull_layers :
    (data_dir : Bytes) (ls : List LayerSource) (s : ImageStore)
    → all_keep data_dir ls ≡ true
    → Ends (PulledLayers ls) s (pull_layers data_dir ls s)
unfolding pull_layers give all_keep
Ends-pull_layers data_dir [] s k = (Grown-refl s, (refl, tt))
Ends-pull_layers data_dir (l ∷ ls) s k =
    Ends-bind (PulledLayer l) (PulledLayers (l ∷ ls)) _ _ s
      (Ends-pull_layer data_dir l s (ground arith))
      λ id t (e, there).
        Ends-bind (λ ids t'. PulledLayers ls ids t' × AllThere t'.layers (id ∷ []))
          (PulledLayers (l ∷ ls)) _ _ t
          (Ends-AllThere (PulledLayers ls) (id ∷ []) t (pull_layers data_dir ls t) there
            (Ends-pull_layers data_dir ls t (ground arith)))
          λ ids t' ((es, theres), here). (Grown-refl t', (rw (e, es) refl, (here.0, theres)))

-- The directory of an image that was pulled.
abbrev pub pulled_dir : Bytes → Bytes → ℕ → List Bytes → ImageDir
pulled_dir name hash now ids = record {
  name = name;
  meta = parsed (record { name = name; hash = hash; created_at = now; layers = ids });
  rootfs = none;
}

-- A pull that ends well has added the image, whose meta.json names the digests of all layers in order,
-- each of which has a directory, and the runner is in place; one that fails has left the images as
-- they were. In both cases no layer is gone.
abbrev pub PullEnds : Bytes → Source → ImageStore → Pulled (Unit {0}) × ImageStore → Type 0
PullEnds name src s (done _, s') =
    (matches_pull_name name ≡ true)
    × (find_image name s.images ≡ none)
    × ((ls : List LayerSource) × (ids : List Bytes) × (hash : Bytes) × (src.layers ≡ some ls)
        × (map digest_of ls ≡ map some ids)
        × (s'.images ≡ pulled_dir name hash src.now ids ∷ s.images)
        × AllThere s'.layers ids
        × (s'.has_runner ≡ true))
    × ((new : List Bytes) × (s'.layers ≡ new ++ s.layers))
PullEnds name src s (refused e, s') =
    (s'.images ≡ s.images)
    × ((put : Bool) × (s'.has_runner ≡ (put || s.has_runner)))
    × ((new : List Bytes) × (s'.layers ≡ new ++ s.layers))
