-- ===== src/Api/Upload/Stored.antt =====
-- Where the files of an upload go.
use sandkasten.Base.{
  subst, ◌≡◌, ◌≤◌, refl, ℕ, ◌+◌, Option, none, some, List, [], ◌∷◌, ◌++◌, length, length-append,
  take, All, All-append, arith,
}
use sandkasten.Base.Text.{Bytes}
use sandkasten.World.{Env, World, Result, ok, err}
use sandkasten.World.Action.{Action, pure, continue, ◌>>=◌}
use sandkasten.Session.{Manager}
use sandkasten.Runner.{sanitize_path}
use sandkasten.Api.Paths.{target, validate_workspace_file_path-sanitize_path}
use sandkasten.Api.Validation.{Refusal, validate_session_id, validate_workspace_file_path}
use sandkasten.Api.Handlers.{
  Reply, malformed, bad_request, failed, answer, Handler, checked_by, call_manager, reply_to,
  decoded,
}
use sandkasten.Api.Upload.{
  UploadFile, UploadForm, max_upload_bytes, max_upload_files, chosen_files, store_file, upload_file,
  and_then, upload_each, upload_files, handle_upload,
}

module _ {A : Type 0} where
  checked_by-answer :
      (o : Option Refusal) (next : Handler A) (w : World) (n : ℕ) (a : A)
      → (checked_by o next w).0 ≡ answer n a
      → (o ≡ none) × ((next w).0 ≡ answer n a)
  unfolding checked_by
  checked_by-answer none next w n a h = (refl, h)
  checked_by-answer (some e) next w n a h = cc

  decoded-answer :
      {B : Type 0} (o : Option B) (next : B → Handler A) (w : World) (n : ℕ) (a : A)
      → (decoded o next w).0 ≡ answer n a
      → (b : B) × (o ≡ some b) × ((next b w).0 ≡ answer n a)
  unfolding decoded
  decoded-answer none next w n a h = cc
  decoded-answer (some b) next w n a h = (b, refl, h)

module _ (dest : Bytes → Bytes) (check : Bytes → Option Refusal)
    (write : Bytes → Bytes → Action (Unit {0})) where
  written :
      (path : Bytes) (r : Result (Unit {0})) (w : World) (n : ℕ) (p : Bytes)
      → (reply_to 200 (continue r (λ u. pure path) w)).0 ≡ answer n p
      → path ≡ p
  unfolding reply_to pure
  written path (ok a) w n p h = cc
  written path (err e) w n p h = cc

  store_file-path :
      (path : Bytes) (o : Option Bytes) (w : World) (n : ℕ) (p : Bytes)
      → (store_file dest check write path o w).0 ≡ answer n p
      → path ≡ p
  unfolding store_file call_manager ◌>>=◌ pure
  store_file-path path none w n p h = cc
  store_file-path path (some c) w n p h =
      let (_, h) = checked_by-answer _ _ w n p h in
      let m = write path (take (max_upload_bytes + 1) c) w in written path m.0 m.1 n p h

  upload_file-checked :
      (f : UploadFile) (w : World) (n : ℕ) (p : Bytes)
      → (upload_file dest check write f w).0 ≡ answer n p
      → check p ≡ none
  unfolding upload_file
  upload_file-checked f w n p h =
      let (_, h) = checked_by-answer _ _ w n p h in
      let (e, h) = checked_by-answer _ _ w n p h in
      subst (λ q. check q ≡ none) (store_file-path _ _ w n p h) e

  and_then-answer :
      (done : List Bytes) (next : List Bytes → Handler (List Bytes)) (r : Reply Bytes) (w : World)
      (n : ℕ) (paths : List Bytes)
      → (and_then dest check write done next (r, w)).0 ≡ answer n paths
      → (k : ℕ) × (p : Bytes) × (r ≡ answer k p) × ((next (done ++ p ∷ []) w).0 ≡ answer n paths)
  and_then-answer done next malformed w n paths h = cc
  and_then-answer done next (bad_request e) w n paths h = cc
  and_then-answer done next (failed e) w n paths h = cc
  and_then-answer done next (answer k p) w n paths h = (k, p, refl, h)

  -- The files that are stored are as many as there are, and the check has accepted their places.
  upload_each-Stored :
      (done : List Bytes) (fs : List UploadFile) (w : World) (n : ℕ) (paths : List Bytes)
      → (upload_each dest check write done fs w).0 ≡ answer n paths
      → All (λ p. check p ≡ none) done
      → All (λ p. check p ≡ none) paths × (length paths ≡ length done + length fs)
  unfolding upload_each
  upload_each-Stored done [] w n paths h a =
      let e : done ≡ paths = cc in (subst (All (λ p. check p ≡ none)) e a, rw e (omega arith))
  upload_each-Stored done (f ∷ fs) w n paths h a =
      let r = upload_file dest check write f w in
      let (k, p, stored, h) =
        and_then-answer done (λ ps. upload_each dest check write ps fs) r.0 r.1 n paths h in
      let checked = upload_file-checked f w k p stored in
      let (all, l) =
        upload_each-Stored (done ++ p ∷ []) fs r.1 n paths h
          (All-append _ done (p ∷ []) a (checked, tt)) in
      (all, omega (arith, l, length-append done (p ∷ [])))

  pub upload_files-Stored :
      (form : UploadForm) (w : World) (n : ℕ) (paths : List Bytes)
      → (upload_files dest check write form w).0 ≡ answer n paths
      → All (λ p. check p ≡ none) paths
        × (length paths ≡ length (chosen_files form))
        × (length paths ≤ max_upload_files)
  unfolding upload_files
  upload_files-Stored form w n paths h =
      let (some_file, h) = checked_by-answer _ _ w n paths h in
      let (few, h) = checked_by-answer _ _ w n paths h in
      let (all, l) = upload_each-Stored [] (chosen_files form) w n paths h tt in
      (all, omega (arith, l), ground (arith, few, l))

-- The runner takes the path, and so it is one below /workspace.
abbrev pub IsTaken : Bytes → Type 0
IsTaken p = sanitize_path p ≡ some (target p)

taken : (ps : List Bytes) → All (λ p. validate_workspace_file_path p ≡ none) ps → All IsTaken ps
taken [] h = tt
taken (p ∷ ps) (h, hs) = (validate_workspace_file_path-sanitize_path p h, taken ps hs)

-- When handleUpload answers with paths, there is one for each file of the form's field `file`, or of
-- `files` if that has none; there are at most a hundred; and each is a path that the runner's
-- sanitizePath accepts, so that it lies in the workspace whatever names the client gave.
pub handle_upload-Stored :
    (env : Env) (m : Manager) (id : Bytes) (form : UploadForm) (w : World) (n : ℕ)
    (paths : List Bytes)
    → (handle_upload env m id (some form) w).0 ≡ answer n paths
    → All IsTaken paths
      × (length paths ≡ length (chosen_files form))
      × (length paths ≤ max_upload_files)
unfolding handle_upload decoded
handle_upload-Stored env m id form w n paths h =
    let (valid, h) = checked_by-answer (validate_session_id id) _ w n paths h in
    let (based, h) = checked_by-answer _ _ w n paths h in
    let (all, l, few) = upload_files-Stored _ _ _ form w n paths h in (taken paths all, l, few)
