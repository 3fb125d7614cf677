-- ===== src/Runtime/Mutations.antt =====
-- ApproveAction, DenyAction, handleActionRequest and the end of executeActionAsync.
pub mod Effects
pub mod Completion
pub mod Gated
pub mod Kept
use auxitalk.Base.{
  ℕ, ℤ, negsuc, String, Bool, [], ◌∷◌, Option, none, some, Error, Result, ok, err, ◌==◌, string_eq,
  if◌then◌else◌, concat,
}
use auxitalk.Base.Decimal.{decimal}
use auxitalk.Types.Value.{Fields, str, bool, obj, end, put_field}
use auxitalk.Types.Event.{Event, Time}
use auxitalk.Types.Action.{ActionRequest, allowed, denied, executed, failed}
use auxitalk.Types.Execution.{ActionExecution, completed}
use auxitalk.Types.Execution
use auxitalk.Actions.Gate.{decide}
use auxitalk.Actions.Store.{Store, save, update_status}
use auxitalk.Runtime.Deps.{Runtime, now, unix_nano, persist_action, execute_async, fill_defaults}
use auxitalk.Runtime.Publish.{Publisher, publish_action_status, status_payload}

-- What a plugin is answered: an error by code and text, or a value.
pub data Reply (A : Type 0) : Type 0 where
  rejected : ℤ → Error → Reply A
  responded : A → Reply A

-- protocol.ErrInvalidParams, -32602
abbrev pub err_invalid_params : ℤ
err_invalid_params = negsuc 32601

-- the event that handleActionRequest publishes
unfoldable pub requested_event : ActionRequest → Time → Time → Event
requested_event a stamp created = record {
  id = concat (a.id ∷ "-event-" ∷ decimal (unix_nano stamp) ∷ []);
  type = "action.requested";
  source = "core.runtime";
  session_id = a.session_id;
  trace_id = "";
  depth = ℤ.pos 0;
  payload = status_payload a;
  created_at = created;
}

-- the status of the action, and that of the execution, after it has run
abbrev pub final_status : Option Error → String
final_status none = executed
final_status (some e) = failed

abbrev pub execution_status : Option Error → String
execution_status none = completed
execution_status (some e) = Execution.failed

abbrev pub error_text : Option Error → Error
error_text none = ""
error_text (some e) = e

unfoldable pub executed_event : ActionRequest → ActionExecution → Option Error → Time → Time → Event
executed_event a x failure stamp created = record {
  id = concat ("action.executed-" ∷ decimal (unix_nano stamp) ∷ []);
  type = "action.executed";
  source = "core.runtime";
  session_id = a.session_id;
  trace_id = a.trace_id;
  depth = a.depth;
  payload = put_field "dryRun" (bool x.dry_run) (
      put_field "result" (obj x.result) (
        put_field "error" (str (error_text failure)) (
          put_field "status" (str (execution_status failure)) (
            put_field "actionSource" (str a.source)
              (put_field "actionType" (str a.type) (put_field "actionId" (str a.id) end))))));
  created_at = created;
}

-- what follows UpdateStatus at the end of executeActionAsync
pub settle_updated : Store × Result ActionRequest → Runtime → Runtime
settle_updated (s, err e) r = r
settle_updated (s, ok a) r = persist_action a (record r { actions = s })

pub settle : String → String → Runtime → Runtime
unfolding settle_updated
settle id status r = settle_updated (update_status id status r.actions) r

module _ (time_at : ℕ → Time) (publish : Publisher) where
  -- what follows UpdateStatus in ApproveAction
  unfoldable pub approve_updated :
      Store × Result ActionRequest → Runtime → Runtime × Result ActionRequest
  approve_updated (s, err e) r = (r, err e)
  approve_updated (s, ok a) r = (
    execute_async a (
        publish_action_status time_at publish "action.approved" a
          (persist_action a (record r { actions = s }))),
    ok a,
  )

  unfoldable pub approve_action : String → Runtime → Runtime × Result ActionRequest
  unfolding approve_updated
  approve_action id r = approve_updated (update_status id allowed r.actions) r

  -- what follows UpdateStatus in DenyAction
  pub deny_updated : Store × Result ActionRequest → Runtime → Runtime × Result ActionRequest
  deny_updated (s, err e) r = (r, err e)
  deny_updated (s, ok a) r = (
    publish_action_status time_at publish "action.denied" a
        (persist_action a (record r { actions = s })),
    ok a,
  )

  pub deny_action : String → Runtime → Runtime × Result ActionRequest
  unfolding deny_updated
  deny_action id r = deny_updated (update_status id denied r.actions) r

  -- handleActionRequest behind the gate
  pub accept_plugin_action : ActionRequest → Runtime → Runtime
  unfolding requested_event
  accept_plugin_action a r =
      let (r1, stamp) = now time_at (record r { actions = save a r.actions }) in
      let (r2, created) = now time_at r1 in
      let r' = (publish (requested_event a stamp created) r2).0 in
      if a.status == allowed then execute_async a r' else r'

  unfoldable pub gate_plugin_action : ActionRequest → Runtime → Runtime × Reply ActionRequest
  unfolding accept_plugin_action
  gate_plugin_action a r =
      let (status, refused) = decide r.mode a in
      let b = record a { status = status } in
      let accepted : Runtime × Reply ActionRequest = (accept_plugin_action b r, responded b) in
      (elim refused [
        | none ↦ accepted
        | some e ↦ if status == "" then (r, rejected err_invalid_params e) else accepted
      ])

  -- `decoded` is what json.Unmarshal makes of the parameters, `none` if it fails.
  unfoldable pub handle_action_request :
      String → Option ActionRequest → Runtime → Runtime × Reply ActionRequest
  unfolding gate_plugin_action
  handle_action_request plugin none r = (r, rejected err_invalid_params "invalid action params")
  handle_action_request plugin (some a) r =
      let (r', b) = fill_defaults time_at plugin (concat (plugin ∷ "-action-" ∷ [])) a r in
      gate_plugin_action b r'

  -- the goroutine of executeActionAsync, once the action has run: `x` is the execution and
  -- `failure` the error that it ended with
  unfoldable pub complete_action :
      ActionRequest → ActionExecution → Option Error → Runtime → Runtime
  unfolding executed_event settle
  complete_action a x failure r =
      let (r1, stamp) = now time_at (settle a.id (final_status failure) r) in
      let (r2, created) = now time_at r1 in
      (publish (executed_event a x failure stamp created) r2).0
