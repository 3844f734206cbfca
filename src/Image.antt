-- ===== src/Image.antt =====
-- cmd/sandkasten/commands_linux.go: the images that the command line pulls into the data directory.
pub mod Layer
pub mod Store
pub mod Pull
