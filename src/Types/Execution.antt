-- ===== src/Types/Execution.antt =====
-- pkg/types/action_execution.go
use auxitalk.Base.{
  String, Bool, ◌||◌, Option, none, some, Error, ◌==◌, string_eq, if◌then◌else◌, is_blank, not,
}
use auxitalk.Types.Value.{Fields}
use auxitalk.Types.Event.{Time, is_zero}

abbrev pub send_message : String
send_message = "send_message"

abbrev pub run_command : String
run_command = "run_command"

abbrev pub call_plugin : String
call_plugin = "call_plugin"

abbrev pub emit_event : String
emit_event = "emit_event"

abbrev pub completed : String
completed = "completed"

abbrev pub failed : String
failed = "failed"

abbrev pub skipped : String
skipped = "skipped"

pub record ActionExecution : Type 0 where
  pub id : String
  pub action_id : String
  pub type : String
  pub status : String
  pub dry_run : Bool
  pub input : Fields
  pub result : Fields
  pub error : String
  pub created_at : Time
  pub completed_at : Time

-- the cases of `switch e.Status`
unfoldable pub is_execution_status : String → Bool
is_execution_status s = s == completed || s == failed || s == skipped

unfoldable pub validate : ActionExecution → Option Error
validate e =
    if is_blank e.id
    then some "action execution id is required"
    else if is_blank e.action_id
    then some "action execution actionId is required"
    else if is_blank e.type
    then some "action execution type is required"
    else if not (is_execution_status e.status)
    then some "action execution status is invalid"
    else if is_zero e.created_at
    then some "action execution createdAt is required"
    else none

unfoldable pub is_workflow_action_type : String → Bool
is_workflow_action_type t =
    t == send_message || t == run_command || t == call_plugin || t == emit_event
