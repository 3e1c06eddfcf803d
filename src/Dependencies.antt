-- ===== src/Dependencies.antt =====
-- cmd/go-overlay/validation.go: the checks on the dependency graph.
pub mod Graph
pub mod Cycles
pub mod Check
