-- ===== src/Session/Shell/Size.antt =====
-- The length of the command that runs a staged script.
use sandkasten.Base.{◌+◌, ◌*◌, ◌≤◌, ◌≡◌, [], ◌∷◌, ◌++◌, length, length-append, arith}
use sandkasten.Base.Text.{Bytes, codes}
use sandkasten.Config.{Config}
use sandkasten.Session.Shell.{
  replace_quotes, shell_single_quote, staged_exec_shell, script_path, staged_cmd,
}

length-replace_quotes : (s : Bytes) → length (replace_quotes s) ≤ 5 * length s
unfolding replace_quotes
length-replace_quotes [] = omega arith
length-replace_quotes (c ∷ s) = ground (arith, length-replace_quotes s)

length-shell_single_quote : (s : Bytes) → length (shell_single_quote s) ≤ 5 * length s + 2
unfolding shell_single_quote
length-shell_single_quote s = rw length-append (let h = length-replace_quotes s in omega arith)

length-script_path : (id : Bytes) → length (codes "/workspace/" ++ script_path id) ≡ length id + 31
unfolding script_path
length-script_path id = omega (arith, length-append id (codes ".sh"))

length-staged_exec_shell : (cfg : Config) → length (staged_exec_shell cfg) ≤ 4
unfolding staged_exec_shell
length-staged_exec_shell cfg = ground arith

length-staged :
    (shell quoted : Bytes)
    → length (staged_cmd shell quoted) ≤ length shell + 2 * length quoted + 80
unfolding staged_cmd
length-staged shell quoted = rw (length-append shell) (
    omega (
      arith,
      length-append quoted (codes "; exit $__sandkasten_rc"),
      length-append quoted
          (codes "; __sandkasten_rc=$?; rm -f " ++ (quoted ++ codes "; exit $__sandkasten_rc")),
    ))

-- What runs a script of the id `id`.
pub length-staged_cmd :
    (cfg : Config) (id : Bytes)
    → length (
        staged_cmd
          (staged_exec_shell cfg)
          (shell_single_quote (codes "/workspace/" ++ script_path id)))
      ≤ 10 * length id + 400
length-staged_cmd cfg id =
    let q = length-shell_single_quote (codes "/workspace/" ++ script_path id) in
    let p = length-script_path id in
    let s = length-staged_exec_shell cfg in
    let t =
      length-staged (staged_exec_shell cfg)
        (shell_single_quote (codes "/workspace/" ++ script_path id)) in
    omega arith
