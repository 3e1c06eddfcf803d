-- ===== src/Lib.antt =====
-- Verification library of go-overlay, a supervisor for the services of a container.
--
-- The program reads a list of services, validates it, starts each service when its dependencies are
-- ready, restarts services by their policy, and stops them all on a signal or when a required
-- service fails. The parts and their models:
--
-- * Config (cmd/go-overlay/config.go): the configuration types, and parseConfig after the TOML
--   decoder, which is the parameter `decode` of `parse_config`.
-- * Validation (cmd/go-overlay/validation.go): the checks of each service and validateConfig, with
--   what they ask of the machine in the record `Host`.
-- * Dependencies (cmd/go-overlay/validation.go): validateDependencies and hasCycles. The search runs
--   on fuel of one more than the number of services, which is never used up, since each call marks a
--   service that had no mark.
-- * Environ (cmd/go-overlay/env.go): env files, the environment of a service, the variables that
--   enable services, and the masking of secrets. The environment and the scanned files are parameters.
-- * Process (cmd/go-overlay/process.go, reaper_linux.go, service.go): lookupUserCredential, with
--   numbers of 32 bits; the command of a service with its user; the tracked children and the reaper,
--   over the interface `Kernel` of the system calls with the laws `IsKernel`; scripts and other
--   commands, over the interface `Machine`; the terminal or log file and the child that a service
--   holds, over the interface `Launcher`; and the signals to a process and its group, which are
--   recorded.
-- * Tracker (cmd/go-overlay/deps.go): the dependency tracker. A channel is a number, with a table of
--   which are closed; a close of a closed channel is a panic.
-- * Supervisor (cmd/go-overlay/service.go, restart.go, main.go, health.go, ipc.go): the globals are
--   the record `State`, and what the goroutines do between two waits is an event, a step of that
--   state. Two panics of Go, the second close of a channel and a wait group below zero, are `none`. What the operating system decides (whether a process starts, and
--   how it ends) comes with the event, so that every interleaving is a list of events. `startService`
--   is two of them, its look at the shutdown and, at any later time, its process as an active service
--   or its failure to start, since no lock joins the two.
-- * Entry (cmd/go-overlay/main.go): the command without a subcommand, and the exit status.
-- * Ipc (cmd/go-overlay/ipc.go): the commands of the operator through the socket, with the JSON codec
--   as the parameter `Codec`, and the table of the services. Ipc/Server has the loop of the server
--   beside the supervisor, where each connection is answered at any later time, and Ipc/Socket its
--   start and end over the interface `Sockets` of the system calls with the laws `IsSockets`.
-- * Output (cmd/go-overlay/logging.go, service.go): the log lines and the output of the services. The
--   stream is read on fuel of its length, which is enough, since each round takes a byte.
-- * Install (cmd/go-overlay/install.go): the link to the program, over the interface `Files` of the
--   file system with the laws `IsFiles`.
-- * Health (cmd/go-overlay/health.go): the defaults of a health check and the count of failed checks,
--   over the list of the outcomes. Supervisor/Monitor has the monitors of all services beside the
--   supervisor: a move is an event of the supervisor, a check with its result, or a monitor that
--   sees that its context is done.
--
-- Base has the shared types and lemmas: text is a list of bytes, a Go map a list of pairs with each
-- key once, an int an integer without bound, and an error a text. Ascii has the functions on text of
-- Go's library that the code calls, for ASCII only. Tests has runs on concrete inputs.
--
-- Not modelled: the panic of a ticker whose interval wraps, that of a wait group that is reused while
-- it is waited for, writing to the terminal, the deadlines of a connection, JSON, what happens inside a
-- pseudo terminal, timers other than the restarts, the parsing of the command line, and the Python
-- scripts. Which case of a `select` is taken, and whether a script succeeds, comes with the event. The
-- durations that the code makes of seconds are not modelled either, so the numbers of the
-- configuration are only compared and do not wrap.
mod Base
pub mod Ascii
pub mod Config
pub mod Dependencies
pub mod Process
pub mod Tracker
pub mod Validation
pub mod Environ
pub mod Supervisor
pub mod Health
pub mod Install
pub mod Output
pub mod Ipc
mod Tests
pub mod Entry
