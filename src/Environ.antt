-- ===== src/Environ.antt =====
-- cmd/go-overlay/env.go: environment files, the environment of a service, the overrides that
-- enable and disable services, and the redaction of secrets.
pub mod Override
pub mod Token
pub mod Service
pub mod Mask
