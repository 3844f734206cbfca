-- ===== src/Runner/Limits.antt =====
-- protocol/protocol.go: the limits on what goes through the runner.
use sandkasten.Base.{ℕ, ◌+◌, ◌*◌}

-- MaxOutputBytes
abbrev pub max_output_bytes : ℕ
max_output_bytes = 5 * 1024 * 1024

-- MaxExecInlineCmdBytes
abbrev pub max_exec_inline_cmd_bytes : ℕ
max_exec_inline_cmd_bytes = 16 * 1024

-- MaxExecCmdBytes
abbrev pub max_exec_cmd_bytes : ℕ
max_exec_cmd_bytes = 1 * 1024 * 1024

-- DefaultMaxReadBytes
abbrev pub default_max_read_bytes : ℕ
default_max_read_bytes = 10 * 1024 * 1024

-- The buffer in which the runner reads a request's line and the driver reads the line of its reply: a
-- line that is as long is refused (bufio.ErrTooLong).
abbrev pub line_limit : ℕ
line_limit = max_output_bytes + 4096
