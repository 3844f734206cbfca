-- ===== src/Lib.antt =====
-- sandkasten runs commands of its clients in sandboxes. A daemon keeps a table of sessions, each of
-- which is a sandbox made by a runtime, and serves them over HTTP; a runner inside each sandbox runs
-- the commands and reads and writes files. These modules model the daemon's own logic and the parts
-- of the runner that compute.
--
-- The parts, and how they call each other:
--   * Store models internal/store/store.go: the table `sessions` as a list of rows (Store/Rows),
--     each statement with what the driver may answer (db_exec, db_query), retryOnBusy, and one
--     definition for each method. It calls no other part.
--   * Pool models internal/pool/pool.go: idle sessions under keys made of an image and a workspace.
--     `get` takes one, `refill` asks the runtime for sandboxes and stores them.
--   * Session models internal/session: manager.go (images, types), create.go (Session/Acquire is the
--     part that takes a session from the pool, Session/Create the rest), exec.go (Session/Exec,
--     Session/Shell, Session/Validate), fs.go (Session/Files) and query.go (Session/Query). It calls
--     the store, the pool and the runtime. Session/Workspaces is workspace.go and workspace_fs.go, with
--     the part that writes into a workspace in Session/WorkspaceFiles.
--   * Reaper models internal/reaper/reaper.go over the store and the runtime.
--   * Daemon is a sequence of calls of these parts, as cmd/sandkasten/main.go connects them;
--     Daemon/Start is runDaemon up to the point where it listens.
--   * Runner models cmd/runner: helpers.go (Runner, Runner/Buffer, Runner/Paths), what exec.go
--     writes to and reads from the terminal (Runner/Output, with what the shell prints in
--     Runner/Output/Line and the poll in Runner/Output/Wait), and fs.go with routeRequest of server.go
--     (Runner/Files); protocol/protocol.go gives the limits.
--   * Api models internal/api: validation.go, middleware.go (Api/Auth) and errors.go, with the
--     path helpers of internal/session/workspace_fs.go; session_handlers.go, exec_handlers.go and
--     fs_handlers.go (Api/Handlers, Api/Upload) and the workspace handlers (Api/Workspaces), which
--     call Session.
--   * Runtime models internal/runtime/linux, which stands behind the calls of a sandbox: network.go
--     (Runtime/Network), and Create and Destroy of driver.go with SetupFilesystem of mount.go and
--     CreateCgroup of cgroup.go (Runtime/Driver), and MountWorkspace (Runtime/Workspace), over what
--     they do to one session's part of the host (Runtime/Host). Runtime/Nsinit models nsinit.go, the
--     first process inside a sandbox, with its filter of system calls in Runtime/Seccomp.
--   * Image models the image commands of cmd/sandkasten/commands_linux.go: validateImage
--     (Image/Store), pullImage (Image/Pull) and extractLayer with the symbolic links of a layer
--     (Image/Layer).
--   * Config models internal/config/config.go: the settings, Load and applyEnvOverrides.
--   * Base holds what they share: tests on numbers, lists, Go's integers and strings, decimal numbers,
--     filepath.Clean, Join, Dir, Base and Rel, base64.
--
-- State. A `World` (World.antt) holds the table, the pool's idle lists, the manager's locks and the
-- history of all calls that left the daemon. An operation is an action: a function from a world to a
-- result and a world (World/Action), written as a do block in the order of the source; an error ends
-- it, and `attempt` and `ignore` are the places where the source looks at an error or drops it. Go's
-- nil results are `none`. What the SQLite driver, the runtime, the clock and the id generator answer
-- is a function of the history, an `Env`, about which no theorem assumes anything: so every call may
-- fail or answer anything at any time. Background refills are recorded where they are started and
-- run as separate calls.
--
-- The runtime keeps its own state: an `IpPool`, and a `Host` on which an operation makes system calls
-- in order; whether a call fails is a function of all calls so far, a `Kernel`. The runner's files are
-- in a `FileSystem`, a record of operations over a state of any type. What net/http, the YAML package
-- and mime/multipart make of their input is an argument of the function that takes it.
--
-- Bounds. Go's int and int64 are ℤ; products of durations wrap at 64 bits, and the sum of a time and
-- a duration does not, as times stay in the range that time.Time has. retryOnBusy recurses on the
-- attempts that are left, three after the first, as in the source. The poll of the runner runs over
-- the list of what its buffer holds at each tick before the deadline. The search for a free address
-- takes fuel, of which as many rounds as the subnet has addresses are enough; the digits of a number
-- take the number as fuel. evalSymlinksInScope takes the depths that are left of its 256 as fuel, and
-- nsinit's waits the rounds that are left, as in the source. The loop that writes a file into a
-- workspace takes the length of the data, as each write that goes on takes at least one byte. Nothing
-- else takes fuel. A length that is one more than a limit wraps at 64 bits, and whether make gives a
-- buffer of a length is an argument.
--
-- In Runtime/Nsinit and Image/Layer a call is noted in a history, and what the kernel or the disk answers
-- is a function of it; so it is in Session/WorkspaceFiles. Image/Store keeps the data directory as lists of
-- images and layers. A pull runs the extraction of each layer over what its disk answers; what becomes of
-- the data directory once an entry has taken the layer's own directory away is an argument.
--
-- Not modelled: the runner's sockets, terminal and processes, the commands that set up networks, the
-- dashboard, the commands that only print or call the API, and the tools under cmd, which
-- are system calls and I/O; log lines; the text of errors beyond what the program tests; interleavings
-- within one call of a component.
pub mod Base
pub mod World
pub mod Config
pub mod Store
pub mod Pool
pub mod Session
pub mod Reaper
pub mod Daemon
pub mod Runner
pub mod Api
pub mod Runtime
pub mod Image
pub mod Tests
