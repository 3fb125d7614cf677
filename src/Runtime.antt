-- ===== src/Runtime.antt =====
-- internal/runtime/runtime.go: the daemon that joins the bus, the gate, the stores and the engine.
-- The state's parts are the fields of Go's Runtime; `running` lists the actions that
-- executeActionAsync has started. A handler of the bus returns before its deadline.
pub mod Deps
pub mod Publish
pub mod Mutations
pub mod Reload
pub mod Restore
pub mod Host
pub mod System
mod Tests
