-- ===== src/Api/Workspaces/Removed.antt =====
-- What the deletion of a workspace removes.
use sandkasten.Base.{
  ◌≡◌, refl, sym, ap, ◌∙◌, true, false, Option, none, some, List, [], ◌∷◌, ◌++◌, append_assoc, drop,
  All, All-append, Bool-cases, Option-cases, inl, inr, length, arith,
}
use sandkasten.Base.Text.{
  Bytes, codes, str_eq, str_eq_refl, eq_of_str_eq, has_byte, has_prefix, trim_prefix,
}
use sandkasten.Base.Path.{slashed, join}
use sandkasten.Base.Path.Rooted.{IsPlain}
use sandkasten.Base.Path.Joined.{join-plain}
use sandkasten.Session.Workspaces.{Volume, workspaces_dir, workspace_path, delete_workspace}
use sandkasten.Api.Validation.{
  ◌then_check◌, workspace_id_pattern, matches_tail, workspace_volume_prefix, normalize_workspace_id,
  validate_short_id, validate_workspace_id,
}
use sandkasten.Api.Access.{has_prefix-append}
use sandkasten.Api.Ids.{pattern-IsName}
use sandkasten.Api.Workspaces.{handle_delete_workspace}

-- A text that the pattern accepts is a plain element.
pattern-IsPlain : (s : Bytes) → workspace_id_pattern s ≡ true → IsPlain s
unfolding workspace_id_pattern str_eq
pattern-IsPlain [] h = cc h
pattern-IsPlain (c ∷ s) h = record {
  no_slash = (pattern-IsName (c ∷ s) h).no_slash;
  nonempty = refl;
  no_dot = ground arith;
  no_dot_dot = ground arith;
}

validated :
    (id : Bytes)
    → validate_workspace_id id ≡ none
    → (str_eq id [] ≡ false) × (workspace_id_pattern (normalize_workspace_id id) ≡ true)
unfolding validate_workspace_id validate_short_id ◌then_check◌
validated id h = (ground arith, ground arith)

-- The prefix alone does not match the pattern.
prefix_refused :
    (id : Bytes)
    → trim_prefix workspace_volume_prefix id ≡ []
    → str_eq id [] ≡ false
    → workspace_id_pattern id ≡ false
unfolding trim_prefix
prefix_refused id e n = elim (Bool-cases (has_prefix workspace_volume_prefix id)) [
  | inl p ↦
      let short : drop (length workspace_volume_prefix) id ≡ [] =
        sym (
          let t : trim_prefix workspace_volume_prefix id
              ≡ drop (length workspace_volume_prefix) id =
            rw p refl in
          t)
        ∙ e in
      let whole : id ≡ workspace_volume_prefix =
        has_prefix-append workspace_volume_prefix id p ∙ ap (◌++◌ workspace_volume_prefix) short in
      ap workspace_id_pattern whole ∙ unfold workspace_id_pattern matches_tail in refl
  | inr p ↦
      let same : id ≡ [] =
        sym (let t : trim_prefix workspace_volume_prefix id ≡ id = rw p refl in t) ∙ e in
      cc (n, ap (λ (x : Bytes). str_eq x []) same, str_eq_refl [])
]

-- What is left of an accepted id behind the prefix.
accepted-IsPlain :
    (id : Bytes)
    → validate_workspace_id id ≡ none
    → IsPlain (trim_prefix workspace_volume_prefix id)
accepted-IsPlain id h =
    let (nonempty, matches) = validated id h in
    elim (Bool-cases (str_eq (trim_prefix workspace_volume_prefix id) [])) [
      | inr e ↦
          let short : normalize_workspace_id id ≡ trim_prefix workspace_volume_prefix id =
            unfold normalize_workspace_id in rw e refl in
          pattern-IsPlain _ (ap workspace_id_pattern (sym short) ∙ matches)
      | inl e ↦
          let long : normalize_workspace_id id ≡ id = unfold normalize_workspace_id in rw e refl in
          let no =
            prefix_refused id (eq_of_str_eq (trim_prefix workspace_volume_prefix id) [] e)
              nonempty in
          cc (no, ap workspace_id_pattern (sym long) ∙ matches)
    ]

-- Nothing, or the directory of one workspace.
abbrev pub RemovedWorkspace : List Bytes → Option Bytes → Type 0
RemovedWorkspace data_dir none = Unit {0}
RemovedWorkspace data_dir (some p) =
    (name : Bytes) × IsPlain name × (p ≡ slashed (data_dir ++ codes "workspaces" ∷ name ∷ []))

-- Whatever id a request names, handleDeleteWorkspace removes nothing, or a path that is the data
-- directory, `workspaces` and one plain element behind it, where the data directory is an absolute path
-- of plain elements, and not `/`.
pub handle_delete_workspace-RemovedWorkspace :
    (v : Volume) (r : Bytes) (rs : List Bytes) (id : Bytes)
    → v.data_dir ≡ slashed (r ∷ rs)
    → All IsPlain (r ∷ rs)
    → RemovedWorkspace (r ∷ rs) (handle_delete_workspace v id).1
unfolding handle_delete_workspace delete_workspace
handle_delete_workspace-RemovedWorkspace v r rs id e plain =
    elim (Option-cases (validate_workspace_id id)) [
      | inr (refusal, f) ↦ rw f tt
      | inl f ↦
          let name = trim_prefix workspace_volume_prefix id in
          let p : IsPlain name = accepted-IsPlain id f in
          let w : IsPlain (codes "workspaces") =
            unfold str_eq has_byte in
            record { no_slash = refl; nonempty = refl; no_dot = refl; no_dot_dot = refl } in
          let first : workspaces_dir v ≡ slashed ((r ∷ rs) ++ codes "workspaces" ∷ []) =
            ap (λ (d : Bytes). join d (codes "workspaces")) e
            ∙ join-plain r rs (codes "workspaces") plain w in
          let below : workspace_path v name ≡ slashed ((r ∷ rs) ++ codes "workspaces" ∷ name ∷ []) =
            ap (λ (d : Bytes). join d name) first
            ∙ (join-plain r (rs ++ codes "workspaces" ∷ []) name
                  (plain.0, All-append IsPlain rs (codes "workspaces" ∷ []) plain.1 (w, tt)) p
                ∙ ap (λ (l : List Bytes). slashed (r ∷ l))
                    (append_assoc rs (codes "workspaces" ∷ []) (name ∷ []))) in
          elim (Bool-cases v.enabled) [
            | inr n ↦ rw (f, n) tt
            | inl n ↦ elim (Bool-cases (v.removes (workspace_path v name))) [
              | inl x ↦ rw (f, n, x) (name, p, below)
              | inr x ↦ rw (f, n, x) (name, p, below)
            ]
          ]
    ]
