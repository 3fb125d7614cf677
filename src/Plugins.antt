-- ===== src/Plugins.antt =====
-- internal/plugins: the registry of plugins, and their processes.
pub mod Registry
pub mod Process
pub mod Supervisor
pub mod Single
mod Tests
