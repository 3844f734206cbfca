-- ===== src/Session/Workspaces/Inside.antt =====
-- Reads of a workspace stay in it, and are cut off where they are said to be.
use sandkasten.Base.{
  ◌≡◌, refl, sym, ap, ◌∙◌, ℕ, suc, ◌-◌, ◌^◌, ◌≤◌, ◌<◌, Bool, true, false, not, Option, none, some,
  List, [], ◌∷◌, ◌++◌, length, take, take-take, take-all, length-take, All, Bool-cases, inl, inr,
  ltb, leb, if◌then◌else◌, arith,
}
use sandkasten.Base.Int.{ℤ, pos, negsuc, pos_part, ◌+ℤ◌, ltb_ℤ, ◌<ℤ◌, wrap64}
use sandkasten.Base.Text.{Bytes, codes, str_eq}
use sandkasten.Base.Path.{slash, is_abs, clean, join, render_rooted}
use sandkasten.Base.Path.Rooted.{IsPlain, clean_rooted}
use sandkasten.Base.Path.Relative.{escapes, escapes-inside, is_abs_rooted}
use sandkasten.Base.Base64.{encode}
use sandkasten.Runner.Limits.{default_max_read_bytes}
use sandkasten.Api.Validation.{normalize_workspace_id, safe_workspace_path}
use sandkasten.Session.Workspaces.{
  Listing, no_directory, unreadable, Volume, WorkspaceError, not_enabled, invalid_id, not_found,
  invalid_path, stat_failed, is_a_directory, read_failed, resolve_failed, resolve_workspace_failed,
  path_escapes, Result, done, refused, ◌>>=◌, ◌>>◌, require, need, workspace_path, resolve,
  shown_in, list_workspace_files, read_size, sent, cut_off, read_workspace_file, entries,
}

-- What a chain of steps that ends well has gone through.
module _ {A B : Type 0} {C : Type 0} where
  through :
      (m : Result A) (f : A → Result B) (b : B)
      → m >>= f ≡ done b
      → ((a : A) → m ≡ done a → f a ≡ done b → C)
      → C
  unfolding ◌>>=◌
  through (done a) f b h k = k a refl h
  through (refused e) f b h k = cc h

  through_need :
      (e : WorkspaceError) (o : Option A) (f : A → Result B) (b : B)
      → need e o >>= f ≡ done b
      → ((a : A) → o ≡ some a → f a ≡ done b → C)
      → C
  unfolding ◌>>=◌
  through_need e none f b h k = cc h
  through_need e (some a) f b h k = k a refl h

module _ {B : Type 0} {C : Type 0} where
  through_require :
      (c : Bool) (e : WorkspaceError) (n : Result B) (b : B)
      → require c e >> n ≡ done b
      → (c ≡ true → n ≡ done b → C)
      → C
  unfolding ◌>>=◌
  through_require true e n b h k = k refl h
  through_require false e n b h k = cc h

-- A path where EvalSymlinks ends.
rooted :
    (p : Bytes)
    → is_abs p ≡ true
    → clean p ≡ p
    → (cs : List Bytes) × All IsPlain cs × (p ≡ render_rooted cs)
rooted p a c = let (cs, plain, e) = clean_rooted p a in (cs, plain, sym c ∙ e)

limit_lem : (size : ℕ) → size < 2 ^ 63 - 1 → pos_part (wrap64 (pos size +ℤ pos 1)) ≡ suc size
unfolding wrap64 ◌+ℤ◌
limit_lem size small = ground arith

seen_short : (size : ℕ) (bytes : Bytes) → ltb size (length bytes) ≡ false → length bytes ≤ size
seen_short size bytes h = ground arith

whole : (size : ℕ) (bytes : Bytes) → length bytes ≤ size → take (suc size) bytes ≡ take size bytes
whole size bytes h = take-all (suc size) bytes (omega arith) ∙ sym (take-all size bytes h)

abbrev SameReply : Bytes × Bool → Bytes × Bool → Type 0
SameReply x y = x ≡ y

-- What a read sends, from how the bytes that were read compare with the size.
sent_pair :
    (b b' : Bool) (x y z : Bytes)
    → b ≡ b'
    → (b ≡ true → x ≡ z)
    → (b ≡ false → y ≡ z)
    → SameReply (encode (if b then x else y), b) (encode z, b')
sent_pair true b' x y z e f g = rw (f refl, sym e) refl
sent_pair false b' x y z e f g = rw (g refl, sym e) refl

read_size_known :
    (v : Volume) (n : ℤ)
    → n <ℤ pos (2 ^ 63 - 1)
    → (size : ℕ) × (read_size v n ≡ pos size) × (size < 2 ^ 63 - 1)
unfolding read_size
read_size_known v (pos n) h = elim (Bool-cases (leb n 0)) [
  | inl e ↦ (default_max_read_bytes, ground arith, omega arith)
  | inr e ↦ (n, ground arith, omega arith)
]
read_size_known v (negsuc n) h = (default_max_read_bytes, ground arith, omega arith)

is_abs-clean : (p : Bytes) → is_abs p ≡ true → is_abs (clean p) ≡ true
is_abs-clean p a = let (cs, plain, e) = clean_rooted p a in rw e (is_abs_rooted cs)

is_abs-join : (p q : Bytes) → is_abs p ≡ true → is_abs (join p q) ≡ true
unfolding join is_abs
is_abs-join [] q a = cc a
is_abs-join (b ∷ p) [] a = is_abs-clean (b ∷ p) a
is_abs-join (b ∷ p) (c ∷ q) a = is_abs-clean ((b ∷ p) ++ slash ∷ c ∷ q) a

module _ (v : Volume) where
  -- A path at or below the one that the links of the workspace's directory lead to.
  abbrev pub Within : Bytes → Bytes → Type 0
  Within workspace real =
      (root : List Bytes) × (rest : List Bytes) × (v.eval_symlinks workspace
        ≡ some (render_rooted root))
      × (real ≡ render_rooted (root ++ rest))

  -- What a read sends: the file at a path within the workspace, up to the size, and whether it is longer.
  abbrev pub Sends : Bytes → ℤ → Bytes → Bool → Type 0
  Sends id max_bytes content truncated =
      (real : Bytes) × (bytes : Bytes) × Within (workspace_path v (normalize_workspace_id id)) real
      × (v.contents real ≡ some bytes)
      × (content ≡ encode (take (pos_part (read_size v max_bytes)) bytes))
      × (truncated ≡ ltb (pos_part (read_size v max_bytes)) (length bytes))

  cut_off_lem :
      (size : ℕ) (bytes : Bytes)
      → size < 2 ^ 63 - 1
      → cut_off v (pos size) bytes ≡ (encode (take size bytes), ltb size (length bytes))
  unfolding cut_off
  cut_off_lem size bytes small =
      let seen : ltb_ℤ (pos size) (pos (length (take (suc size) bytes))) ≡ ltb size (length bytes) =
        ground (arith, length-take (suc size) bytes) in
      ap (λ (n : ℕ). sent v (pos size) (take n bytes)) (limit_lem size small)
      ∙ sent_pair _ (ltb size (length bytes)) _ _ (take size bytes) seen (λ t. take-take size bytes)
          (λ f. whole size bytes (seen_short size bytes (sym seen ∙ f)))

-- The data directory's path is absolute; EvalSymlinks ends at clean paths, and from an absolute path at
-- an absolute one.
module _ (v : Volume) (absolute : is_abs v.data_dir ≡ true)
    (ends_clean : (p q : Bytes) → v.eval_symlinks p ≡ some q → clean q ≡ q)
    (ends_absolute : (p q : Bytes)
      → is_abs p ≡ true
      → v.eval_symlinks p ≡ some q
      → is_abs q ≡ true) where
  workspace_path-absolute : (id : Bytes) → is_abs (workspace_path v id) ≡ true
  workspace_path-absolute id =
      is_abs-join (join v.data_dir (codes "workspaces")) id
        (is_abs-join v.data_dir (codes "workspaces") absolute)

  resolve-Within :
      (workspace full real : Bytes)
      → is_abs workspace ≡ true
      → is_abs full ≡ true
      → resolve v workspace full ≡ done real
      → Within v workspace real
  unfolding resolve
  resolve-Within workspace full real aw af h =
      through_need resolve_failed (v.eval_symlinks full) _ real h λ real' er h1.
        through_need resolve_workspace_failed (v.eval_symlinks workspace) _ real h1 λ root eo h2.
          through_require (not (escapes root real')) path_escapes (done real') real h2 λ stays h3.
            let (rs, pr, qr) =
              rooted real' (ends_absolute full real' af er) (ends_clean full real' er) in
            let (os, po, qo) =
              rooted root (ends_absolute workspace root aw eo) (ends_clean workspace root eo) in
            let inside : escapes (render_rooted os) (render_rooted rs) ≡ false =
              rw (sym qo, sym qr) (ground arith) in
            let (rest, e) = escapes-inside os rs po pr inside in
            let same : real' ≡ real = cc h3 in
            (os, rest, eo ∙ ap some qo, sym same ∙ (qr ∙ ap render_rooted e))

  -- Where the size is below 2^63 - 1, ReadWorkspaceFile sends a file at or below the place that the links
  -- of the workspace's directory lead to: its first bytes, as many as the size (10 MiB if none is given),
  -- in base64, and says that it was cut off exactly if it is longer. The data directory's path is absolute,
  -- and EvalSymlinks ends at clean paths, and from an absolute path at an absolute one.
  pub read_workspace_file-Sends :
      (id path : Bytes) (max_bytes : ℤ) (content : Bytes) (truncated : Bool)
      → max_bytes <ℤ pos (2 ^ 63 - 1)
      → read_workspace_file v id path max_bytes ≡ done (content, truncated)
      → Sends v id max_bytes content truncated
  unfolding read_workspace_file
  read_workspace_file-Sends id path max_bytes content truncated small h =
      let reply : Bytes × Bool = (content, truncated) in
      let short = normalize_workspace_id id in
      let workspace = workspace_path v short in
      through_require v.enabled not_enabled _ reply h λ _ h1.
        through_require (not (str_eq (normalize_workspace_id id) [])) invalid_id _ reply h1 λ _ h2.
          through_require (not (str_eq (safe_workspace_path path) [])) invalid_path _ reply h2
            λ _ h3.
              through (resolve v workspace (join workspace (safe_workspace_path path))) _ reply h3
                λ real found h4. through_need stat_failed (v.is_dir real) _ reply h4 λ is_dir _ h5.
                  through_require (not is_dir) is_a_directory _ reply h5 λ _ h6.
                    through_need read_failed (v.contents real) _ reply h6 λ bytes there h7.
                      reads id max_bytes content truncated real bytes
                        (resolve-Within workspace _ real (workspace_path-absolute short)
                          (is_abs-join workspace (safe_workspace_path path)
                            (workspace_path-absolute short))
                          found)
                        there h7 (read_size_known v max_bytes small)
    where
      reads :
          (id : Bytes) (max_bytes : ℤ) (content : Bytes) (truncated : Bool) (real bytes : Bytes)
          → Within v (workspace_path v (normalize_workspace_id id)) real
          → v.contents real ≡ some bytes
          → done (cut_off v (read_size v max_bytes) bytes) ≡ done (content, truncated)
          → ((size : ℕ) × (read_size v max_bytes ≡ pos size) × (size < 2 ^ 63 - 1))
          → Sends v id max_bytes content truncated
      reads id max_bytes content truncated real bytes within there h7 (size, s, below) =
          let given : SameReply (cut_off v (read_size v max_bytes) bytes) (content, truncated) =
            cc h7 in
          let q : SameReply (content, truncated)
              (encode (take size bytes), ltb size (length bytes)) =
            sym given ∙ (ap (λ (n : ℤ). cut_off v n bytes) s ∙ cut_off_lem v size bytes below) in
          (
            real,
            bytes,
            within,
            there,
            ap (λ (x : Bytes × Bool). x.0) q
                ∙ ap (λ (n : ℤ). encode (take (pos_part n) bytes)) (sym s),
            ap (λ (x : Bytes × Bool). x.1) q
                ∙ ap (λ (n : ℤ). ltb (pos_part n) (length bytes)) (sym s),
          )

  -- What ListWorkspaceFiles shows is the content of a directory at or below the place that the links of
  -- the workspace's directory lead to. The data directory's path is absolute, and EvalSymlinks ends at
  -- clean paths, and from an absolute path at an absolute one.
  pub list_workspace_files-Within :
      (id path : Bytes) (es : List (Bytes × Bool))
      → list_workspace_files v id path ≡ done es
      → (real : Bytes) × Within v (workspace_path v (normalize_workspace_id id)) real
        × (v.read_dir real ≡ entries es)
  unfolding list_workspace_files
  list_workspace_files-Within id path es h =
      let short = normalize_workspace_id id in
      let workspace = workspace_path v short in
      through_require v.enabled not_enabled _ es h λ _ h1.
        through_require (not (str_eq (normalize_workspace_id id) [])) invalid_id _ es h1 λ _ h2.
          through_require (not (v.is_missing workspace)) not_found _ es h2 λ _ h3.
            through (resolve v workspace (join workspace (safe_workspace_path path))) _ es h3
              λ real found h4. (
                real,
                resolve-Within workspace _ real (workspace_path-absolute short)
                    (is_abs-join workspace (safe_workspace_path path)
                      (workspace_path-absolute short))
                    found,
                listed (v.read_dir real) h4,
              )
    where
      listed : (l : Listing) → shown_in v l ≡ done es → l ≡ entries es
      listed no_directory h = cc h
      listed unreadable h = cc h
      listed (entries es') h = cc h
