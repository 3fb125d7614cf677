-- ===== src/Control/Service.antt =====
-- The interface Runtime of internal/control/server.go, over a state `S`.
use auxitalk.Base.{ℤ, String, Bool, List, Option, Error, Result}
use auxitalk.Types.Event.{Event}
use auxitalk.Types.Action.{ActionRequest}
use auxitalk.Types.Workflow.{Workflow}

-- The operations that change the state, and Logs.
pub record RuntimeApi (S : Type 0) : Type 0 where
  pub approve_action : String → S → S × Result ActionRequest
  pub deny_action : String → S → S × Result ActionRequest
  pub reload_workflows : List Workflow → S → S × Option Error
  pub enable_workflow : String → S → S × Option Error
  pub disable_workflow : String → S → S × Option Error
  pub emit_event : Event → S → S × Option Error
  pub configure_plugin : String → Bool → List (String × String) → S → S × Option Error
  pub logs : ℤ → S → Result String
