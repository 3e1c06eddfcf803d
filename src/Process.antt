-- ===== src/Process.antt =====
-- cmd/go-overlay/process.go and reaper_linux.go: user credentials, signals to the processes of the
-- services, the children that the supervisor tracks, and the reaper of orphans.
pub mod Credential
pub mod Signals
pub mod Command
pub mod Run
pub mod Children
pub mod Reaper
pub mod Session
