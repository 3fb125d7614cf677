-- ===== src/Runtime/Publish.antt =====
-- Publishing from the runtime: the workflow handler requests actions, and a requested action is
-- published in its turn. `nesting` bounds how deep publishing may nest in this model.
pub mod Closed
pub mod Permitted
pub mod Still
use auxitalk.Base.{
  ℕ, zero, suc, ℤ, pos, String, List, [], ◌∷◌, Option, none, some, Error, ◌==◌, string_eq,
  if◌then◌else◌, concat,
}
use auxitalk.Base.Decimal.{decimal}
use auxitalk.Types.Value.{Value, Fields, str, end, put_field}
use auxitalk.Types.Event.{Event, Time}
use auxitalk.Types.Action.{ActionRequest, allowed}
use auxitalk.Types.Session.{Session}
use auxitalk.Base.Map.{lookup}
use auxitalk.Actions.Gate.{decide}
use auxitalk.Actions.Store.{save}
use auxitalk.Events.Bus.{Bus, Outcome, returned}
use auxitalk.Events.Bus
use auxitalk.Workflows.Engine.{handle_event}
use auxitalk.Runtime.Deps.{
  Runtime, Handler, persistence, workflow, tracking, now, unix_nano, persist_action, execute_async,
  fill_defaults, handle_persistence, handle_tracking,
}

abbrev pub Publisher : Type 0
Publisher = Event → Runtime → Runtime × Option Error

-- the payload of the events on the status of an action
abbrev pub status_payload : ActionRequest → Fields
status_payload a = put_field "source" (str a.source) (
    put_field "status" (str a.status) (
      put_field "risk" (str a.risk)
        (put_field "type" (str a.type) (put_field "id" (str a.id) end))))

-- the event of publishActionStatus; it has neither trace nor depth
unfoldable pub status_event : String → ActionRequest → Time → Time → Event
status_event event_type a stamp created = record {
  id = concat (event_type ∷ "-" ∷ decimal (unix_nano stamp) ∷ []);
  type = event_type;
  source = "core.runtime";
  session_id = a.session_id;
  trace_id = "";
  depth = pos 0;
  payload = status_payload a;
  created_at = created;
}

-- the sessions as the engine's resolver
abbrev pub session_at : String → Runtime → Option Session
session_at id r = lookup id r.sessions

module _ (time_at : ℕ → Time) where
  -- the error of Publish is dropped
  unfoldable pub publish_action_status : Publisher → String → ActionRequest → Runtime → Runtime
  unfolding status_event
  publish_action_status publish event_type a r =
      let (r1, stamp) = now time_at r in
      let (r2, created) = now time_at r1 in (publish (status_event event_type a stamp created) r2).0

  -- RequestAction behind the gate, with the status that it gave
  unfoldable pub accept_action : Publisher → ActionRequest → Runtime → Runtime
  unfolding publish_action_status
  accept_action publish a r =
      let r' =
        publish_action_status publish "action.requested" a
          (persist_action a (record r { actions = save a r.actions })) in
      if a.status == allowed then execute_async a r' else r'

  unfoldable pub gate_action : Publisher → ActionRequest → Runtime → Runtime × Option Error
  unfolding accept_action
  gate_action publish a r =
      let (status, failed) = decide r.mode a in
      let accepted : Runtime × Option Error =
        (accept_action publish (record a { status = status }) r, none) in
      (elim failed [ none ↦ accepted | some e ↦ if status == "" then (r, some e) else accepted ])

  unfoldable pub request_action : Publisher → ActionRequest → Runtime → Runtime × Option Error
  unfolding gate_action
  request_action publish a r =
      let (r', b) = fill_defaults time_at "workflow" "workflow-action-" a r in
      gate_action publish b r'

  pub handle_workflow : Publisher → Event → Runtime → Runtime × Option Error
  unfolding request_action
  handle_workflow publish e r =
      let (r', p) =
        handle_event (λ x. x.engine) (λ x s. record s { engine = x }) (now time_at) session_at
          (request_action publish) e r in
      (r', p.1)

  pub run_handler : Publisher → Handler → Event → Runtime → Runtime × Outcome
  unfolding handle_workflow
  run_handler publish persistence e r = let (r', o) = handle_persistence e r in (r', returned o)
  run_handler publish workflow e r = let (r', o) = handle_workflow publish e r in (r', returned o)
  run_handler publish tracking e r = let (r', o) = handle_tracking time_at e r in (r', returned o)

  -- Bus.Publish on the runtime's bus, with the orders of the iterations over its handlers.
  module _ (order wild_order : List (ℕ × Handler) → List (ℕ × Handler)) where
    pub publish_at : ℕ → Publisher
    unfolding run_handler
    publish_at zero e r = (r, some "publishing is nested too deeply for the model")
    publish_at (suc nesting) e r =
        Bus.publish (λ x. x.bus) (λ b x. record x { bus = b }) (run_handler (publish_at nesting))
          order wild_order e r
