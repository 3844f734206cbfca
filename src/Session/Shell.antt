-- ===== src/Session/Shell.antt =====
-- internal/session/exec.go: the text of a staged command.
pub mod Size
use sandkasten.Base.{[], ◌∷◌, ◌++◌, ◌==◌, if◌then◌else◌}
use sandkasten.Base.Text.{Bytes, codes, str_eq}
use sandkasten.Config.{Config}

-- strings.ReplaceAll(s, "'", "'\"'\"'")
unfoldable pub replace_quotes : Bytes → Bytes
replace_quotes [] = []
replace_quotes (c ∷ s) =
    let rest = replace_quotes s in
    if c == b'\'' then b'\'' ∷ b'"' ∷ b'\'' ∷ b'"' ∷ b'\'' ∷ rest else c ∷ rest

-- shellSingleQuote
unfoldable pub shell_single_quote : Bytes → Bytes
unfolding replace_quotes
shell_single_quote s = b'\'' ∷ (replace_quotes s ++ b'\'' ∷ [])

-- stagedExecShell
pub staged_exec_shell : Config → Bytes
staged_exec_shell cfg = if str_eq cfg.shell_prefer (codes "sh") then codes "sh" else codes "bash"

-- fmt.Sprintf(".sandkasten/exec-%s.sh", execID)
pub script_path : Bytes → Bytes
script_path exec_id = codes ".sandkasten/exec-" ++ (exec_id ++ codes ".sh")

-- The command that runs the script, removes it, and ends with the script's exit status.
pub staged_cmd : Bytes → Bytes → Bytes
staged_cmd shell quoted =
    shell
    ++ (codes " "
        ++ (quoted
            ++ (codes "; __sandkasten_rc=$?; rm -f "
                ++ (quoted ++ codes "; exit $__sandkasten_rc"))))
