-- ===== src/Api/Paths.antt =====
-- internal/api/validation.go against cmd/runner/helpers.go: the API's check of a path and the
-- runner's.
use sandkasten.Base.{
  Bool, true, false, Option, none, some, ◌≡◌, refl, [], Bool-cases, ◌⊎◌, inl, inr, if◌then◌else◌,
  arith,
}
use sandkasten.Base.Text.{Bytes, codes, str_eq, eq_of_str_eq}
use sandkasten.Base.Path.{is_abs, clean, join}
use sandkasten.Api.Validation.{
  Refusal, path_required, WriteRequest, ◌then_check◌, refuse_if, file_path,
  validate_workspace_file_path, validate_write_request,
}
use sandkasten.Runner.{sanitize_path}
use sandkasten.Runner.Files.{file_target}

-- The path that both checks look at.
abbrev pub target : Bytes → Bytes
target p = clean (if is_abs p then p else join (codes "/workspace") p)

-- A path that ValidateWorkspaceFilePath accepts is accepted by the runner's sanitizePath too, which hands
-- on the cleaned path.
pub validate_workspace_file_path-sanitize_path :
    (p : Bytes) → validate_workspace_file_path p ≡ none → sanitize_path p ≡ some (target p)
unfolding validate_workspace_file_path sanitize_path ◌then_check◌
validate_workspace_file_path-sanitize_path p h = ground arith

accepted : (a b : Option Refusal) → a then_check b ≡ none → (a ≡ none) × (b ≡ none)
unfolding ◌then_check◌
accepted none b h = (refl, h)
accepted (some e) b h = cc h

unrefused : (b : Bool) (e : Refusal) → refuse_if b e ≡ none → b ≡ false
unrefused true e h = cc h
unrefused false e h = refl

-- For a write that validateWriteRequest accepts, the runner's handleWrite takes the cleaned path for its
-- file; or the path is relative and stands for /workspace itself, as `.` does, and only the runner
-- refuses it.
pub validate_write_request-file_target :
    (r : WriteRequest)
    → validate_write_request r ≡ none
    → (file_target r.path ≡ some (target r.path))
      ⊎ ((is_abs r.path ≡ false)
          × (target r.path ≡ codes "/workspace")
          × (file_target r.path ≡ none))
unfolding validate_write_request
validate_write_request-file_target r h =
    let (path_ok, _) = accepted (file_path r.path) _ h in
    let (_, rest) = accepted (refuse_if (str_eq r.path []) path_required) _ path_ok in
    let (inside, named) = accepted (validate_workspace_file_path r.path) _ rest in
    let s = validate_workspace_file_path-sanitize_path r.path inside in
    let other : str_eq (clean r.path) (codes "/workspace") ≡ false = unrefused _ _ named in
    elim (Bool-cases (str_eq (target r.path) (codes "/workspace"))) [
      | inr e ↦ inl (unfold file_target in rw (s, e) refl)
      | inl e ↦ elim (Bool-cases (is_abs r.path)) [
        | inr a ↦ inr (
          a,
          eq_of_str_eq (target r.path) (codes "/workspace") e,
          unfold file_target in rw (s, e) refl,
        )
        | inl a ↦ cc (a, e, other)
      ]
    ]
