-- ===== src/Runtime.antt =====
-- internal/runtime/linux: the runtime that makes sandboxes out of namespaces, mounts and cgroups.
pub mod Network
pub mod Host
pub mod Driver
pub mod Workspace
pub mod Seccomp
pub mod Nsinit
