-- ===== src/Workflows.antt =====
-- internal/workflows: the registry of workflows, the engine that turns events into actions, and the
-- mock executor.
pub mod Registry
pub mod Interpolate
pub mod Executor
pub mod Engine
mod Tests
