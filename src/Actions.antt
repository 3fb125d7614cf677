-- ===== src/Actions.antt =====
-- internal/actions: the gate that decides on an action, and the store of actions.
pub mod Gate
pub mod Store
mod Tests
