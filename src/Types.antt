-- ===== src/Types.antt =====
-- pkg/types: the core's data and the validation of each type.
pub mod Value
pub mod Event
pub mod Action
pub mod Execution
pub mod Session
pub mod Plugin
pub mod Workflow
pub mod Samples
pub mod Suggestion
