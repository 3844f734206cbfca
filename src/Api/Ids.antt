-- ===== src/Api/Ids.antt =====
-- internal/api/validation.go: the ids that become names of directories.
use sandkasten.Base.{true, false, none, [], ◌∷◌, ◌≡◌, refl, length, ◌≤◌, arith}
use sandkasten.Base.Text.{Bytes, str_eq, has_prefix, contains, has_byte}
use sandkasten.Base.Path.{slash, dot_dot}
use sandkasten.Api.Validation.{
  ◌then_check◌, matches_tail, workspace_id_pattern, validate_given_workspace,
  validate_create_session_request, CreateSessionRequest,
}

-- A name that stays inside the directory it is joined to: no separator and no "..".
pub record IsName (id : Bytes) : Type 0 where
  pub no_slash : has_byte slash id ≡ false
  pub no_dots : contains dot_dot id ≡ false

tail-no_slash : (s : Bytes) → matches_tail s ≡ true → has_byte slash s ≡ false
unfolding matches_tail has_byte
tail-no_slash [] h = refl
tail-no_slash (c ∷ []) h = ground arith
tail-no_slash (c ∷ d ∷ s) h = ground (arith, tail-no_slash (d ∷ s))

tail-no_dots : (s : Bytes) → matches_tail s ≡ true → contains dot_dot s ≡ false
unfolding matches_tail contains has_prefix
tail-no_dots [] h = refl
tail-no_dots (c ∷ []) h = ground arith
tail-no_dots (c ∷ d ∷ s) h = ground (arith, tail-no_dots (d ∷ s))

pub pattern-IsName : (s : Bytes) → workspace_id_pattern s ≡ true → IsName s
unfolding workspace_id_pattern contains has_byte has_prefix
pattern-IsName [] h = record { no_slash = refl; no_dots = refl }
pattern-IsName (c ∷ s) h = record {
  no_slash = ground (arith, tail-no_slash s);
  no_dots = ground (arith, tail-no_dots s);
}

given-IsName : (id : Bytes) → validate_given_workspace id ≡ none → IsName id × length id ≤ 64
unfolding validate_given_workspace ◌then_check◌ str_eq contains has_byte has_prefix
given-IsName [] h = (record { no_slash = refl; no_dots = refl }, ground arith)
given-IsName (c ∷ s) h = (pattern-IsName (c ∷ s) (ground arith), ground arith)

-- A create request that validateCreateSessionRequest accepts names no workspace, or one whose id has
-- no separator and no "..", so that it stays below the directory of the workspaces, and that is at
-- most 64 bytes long.
pub validate_create_session_request-IsName :
    (req : CreateSessionRequest)
    → validate_create_session_request req ≡ none
    → IsName req.workspace_id × length req.workspace_id ≤ 64
unfolding validate_create_session_request ◌then_check◌
validate_create_session_request-IsName req h = given-IsName req.workspace_id (ground arith)
