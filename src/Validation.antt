-- ===== src/Validation.antt =====
-- cmd/go-overlay/validation.go: the checks of one service and of the whole configuration. The
-- checks on the dependency graph are in Dependencies.
pub mod Host
pub mod Fields
pub mod Accepts
pub mod Service
pub mod Config
