-- ===== src/Commands.antt =====
-- cmd/auxitalkd, cmd/auxitalkctl and internal/logger: the programs around the runtime.
pub mod Logger
pub mod Daemon
pub mod Ctl
mod Tests
