-- ===== src/Api.antt =====
-- internal/api: what the HTTP server checks before it calls the manager, and how it answers an error.
pub mod Validation
pub mod Auth
pub mod Errors
pub mod Paths
pub mod Ids
pub mod Access
pub mod Handlers
pub mod Upload
pub mod Workspaces
