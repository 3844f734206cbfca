-- ===== src/Tests/Volume.antt =====
-- Runs of the model of the workspaces on a concrete volume.
use sandkasten.Base.{
  ◌≡◌, refl, subst, arith, Bool, true, false, Option, none, some, [], ◌∷◌, All, if◌then◌else◌,
}
use sandkasten.Base.Int.{pos}
use sandkasten.Base.Text.{Bytes, codes, str_eq, has_byte, trim_prefix, contains}
use sandkasten.Base.Path.{slashed, is_abs, clean, join}
use sandkasten.Base.Path.Rooted.{IsPlain}
use sandkasten.Base.Base64.{encode}
use sandkasten.Api.Validation.{normalize_workspace_id, safe_workspace_path}
use sandkasten.Session.Workspaces.{
  Volume, entries, done, cut_off, read_workspace_file, resolve, workspace_path,
  list_workspace_files,
}
use sandkasten.Session.Workspaces.Inside.{
  Sends, read_workspace_file-Sends, Within, list_workspace_files-Within,
}
use sandkasten.Api.Workspaces.{handle_delete_workspace}
use sandkasten.Api.Workspaces.Removed.{RemovedWorkspace, handle_delete_workspace-RemovedWorkspace}

abbrev note_path : Bytes
note_path = codes "/data/workspaces/ws1/note"

-- One file in one workspace; other paths cannot be resolved.
abbrev eval_symlinks : Bytes → Option Bytes
eval_symlinks p =
    if str_eq p note_path
    then some note_path
    else if str_eq p (codes "/data/workspaces/ws1")
    then some (codes "/data/workspaces/ws1")
    else none

abbrev volume : Volume
volume = record {
  enabled = true;
  data_dir = codes "/data";
  is_missing = λ p. false;
  eval_symlinks = eval_symlinks;
  read_dir = λ p. entries ((codes "note", false) ∷ []);
  is_dir = λ p. some false;
  contents = λ p. some (codes "hello");
  makes_dir = λ p. true;
  removes = λ p. true;
}

abbrev CleanEnd : Bytes → Type 0
CleanEnd q = (is_abs q ≡ true) × (clean q ≡ q)

known :
    (b b' : Bool) (q : Bytes)
    → (if b then some note_path else if b' then some (codes "/data/workspaces/ws1") else none)
      ≡ some q
    → CleanEnd q
known true b' q h =
    let e : note_path ≡ q = cc h in subst CleanEnd e (unfold is_abs clean in (refl, refl))
known false true q h =
    let e : codes "/data/workspaces/ws1" ≡ q = cc h in
    subst CleanEnd e (unfold is_abs clean in (refl, refl))
known false false q h = cc h

ends : (p q : Bytes) → eval_symlinks p ≡ some q → CleanEnd q
ends p q h = known (str_eq p note_path) (str_eq p (codes "/data/workspaces/ws1")) q h

sent_note :
    read_workspace_file volume (codes "ws1") (codes "note") (pos 3) ≡ done (codes "aGVs", true)
unfolding read_workspace_file resolve cut_off normalize_workspace_id trim_prefix safe_workspace_path
    contains join encode
sent_note = refl

read_workspace_file-Sends_example : Sends volume (codes "ws1") (pos 3) (codes "aGVs") true
read_workspace_file-Sends_example =
    read_workspace_file-Sends volume (unfold is_abs in refl) (λ p q h. (ends p q h).1)
      (λ p q a h. (ends p q h).0) (codes "ws1") (codes "note") (pos 3) (codes "aGVs") true
      (omega arith) sent_note

shown_note :
    list_workspace_files volume (codes "ws1") (codes ".") ≡ done ((codes "note", false) ∷ [])
unfolding list_workspace_files resolve normalize_workspace_id trim_prefix safe_workspace_path
    contains join
shown_note = refl

list_workspace_files-Within_example :
    (real : Bytes) × Within volume
      (workspace_path volume (normalize_workspace_id (codes "ws1")))
      real
    × (volume.read_dir real ≡ entries ((codes "note", false) ∷ []))
list_workspace_files-Within_example =
    list_workspace_files-Within volume (unfold is_abs in refl) (λ p q h. (ends p q h).1)
      (λ p q a h. (ends p q h).0) (codes "ws1") (codes ".") ((codes "note", false) ∷ []) shown_note

data-IsPlain : All IsPlain (codes "data" ∷ [])
data-IsPlain =
    unfold str_eq has_byte in
    (record { no_slash = refl; nonempty = refl; no_dot = refl; no_dot_dot = refl }, tt)

data_slashed : volume.data_dir ≡ slashed (codes "data" ∷ [])
unfolding slashed
data_slashed = refl

handle_delete_workspace-RemovedWorkspace_example :
    RemovedWorkspace
      (codes "data" ∷ [])
      (handle_delete_workspace volume (codes "sandkasten-ws-ws1")).1
handle_delete_workspace-RemovedWorkspace_example =
    handle_delete_workspace-RemovedWorkspace volume (codes "data") [] (codes "sandkasten-ws-ws1")
      data_slashed data-IsPlain
