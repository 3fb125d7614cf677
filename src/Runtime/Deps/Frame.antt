-- ===== src/Runtime/Deps/Frame.antt =====
-- What the parts that do not publish leave alone.
use auxitalk.Base.{ℕ, String, ◌≡◌, arith, string_eq}
use auxitalk.Types.Event.{Event, Time}
use auxitalk.Types.Action.{ActionRequest}
use auxitalk.Runtime.Deps.{
  Runtime, persist_action, handle_persistence, handle_tracking, fill_defaults,
}

-- The mode, the stored actions, the actions under way, the registry and the engine are those of before.
pub record SameCore (r s : Runtime) : Type 0 where
  pub mode : s.mode ≡ r.mode
  pub actions : s.actions ≡ r.actions
  pub running : s.running ≡ r.running
  pub engine : s.engine ≡ r.engine
  pub registry : s.registry ≡ r.registry
  pub bus : s.bus ≡ r.bus

pub persist_action-SameCore : (a : ActionRequest) (r : Runtime) → SameCore r (persist_action a r)
unfolding persist_action
persist_action-SameCore a r = ground arith

pub handle_persistence-SameCore : (e : Event) (r : Runtime) → SameCore r (handle_persistence e r).0
unfolding handle_persistence
handle_persistence-SameCore e r = ground arith

module _ (time_at : ℕ → Time) where
  pub handle_tracking-SameCore :
      (e : Event) (r : Runtime) → SameCore r (handle_tracking time_at e r).0
  unfolding handle_tracking
  handle_tracking-SameCore e r = ground arith

  pub fill_defaults-SameCore :
      (source prefix : String) (a : ActionRequest) (r : Runtime)
      → SameCore r (fill_defaults time_at source prefix a r).0
  unfolding fill_defaults
  fill_defaults-SameCore source prefix a r = ground arith
