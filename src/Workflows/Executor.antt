-- ===== src/Workflows/Executor.antt =====
-- internal/workflows/executor.go
pub mod Exact
use auxitalk.Base.{
  ℕ, ◌+◌, ◌%◌, ◌^◌, true, false, List, [], ◌∷◌, ◌++◌, Option, none, some, Error, Result, ok, err,
  ◌==◌, string_eq, if◌then◌else◌, concat, not,
}
use auxitalk.Base.Decimal.{decimal}
use auxitalk.Types.Value.{Fields, bool, str, end, put_field}
use auxitalk.Types.Event.{Time}
use auxitalk.Types.Action.{ActionRequest}
use auxitalk.Types.Action
use auxitalk.Types.Execution.{
  ActionExecution, send_message, run_command, call_plugin, emit_event, completed,
  is_workflow_action_type,
}
use auxitalk.Types.Execution

pub record MockExecutor : Type 0 where
  pub seq : ℕ  -- uint64
  pub executions : List ActionExecution

-- NewMockExecutor
abbrev pub new_executor : MockExecutor
new_executor = record { seq = 0; executions = [] }

unfoldable pub mock_result : ActionRequest → Fields
mock_result a =
    let result = put_field "type" (str a.type) (put_field "dryRun" (bool true) end) in
    if a.type == send_message
    then put_field "description" (str "message send simulated")
        (put_field "messageQueued" (bool false) result)
    else if a.type == run_command
    then put_field "description" (str "command execution simulated")
        (put_field "commandExecuted" (bool false) result)
    else if a.type == call_plugin
    then put_field "description" (str "plugin call simulated")
        (put_field "pluginCalled" (bool false) result)
    else if a.type == emit_event
    then put_field "description" (str "event emit simulated")
        (put_field "eventEmitted" (bool false) result)
    else result

-- cloneMap: the copy of a map is the same map
abbrev pub clone_map : Fields → Fields
clone_map m = m

unfoldable pub new_execution : Time → ActionRequest → MockExecutor → MockExecutor × ActionExecution
unfolding mock_result
new_execution now a x =
    let seq = (x.seq + 1) % 2 ^ 64 in
    (
      record x { seq = seq },
      record {
        id = concat ("mock-exec-" ∷ decimal seq ∷ []);
        action_id = a.id;
        type = a.type;
        status = completed;
        dry_run = true;
        input = clone_map a.payload;
        result = mock_result a;
        error = "";
        created_at = now;
        completed_at = now;
      },
    )

-- the rest of Execute, after the new execution
unfoldable pub store_execution :
    MockExecutor × ActionExecution → MockExecutor × Result ActionExecution
store_execution (x, execution) = elim (Execution.validate execution) [
  | some e ↦ (x, err e)
  | none ↦ (record x { executions = x.executions ++ execution ∷ [] }, ok execution)
]

-- `done` is the error of the context, if it is over.
unfoldable pub execute :
    Option Error → Time → ActionRequest → MockExecutor → MockExecutor × Result ActionExecution
unfolding new_execution store_execution
execute done now a x = elim (Action.validate a) [
  | some e ↦ (x, err e)
  | none ↦
      if not (is_workflow_action_type a.type)
      then (x, err (concat ("unsupported workflow action type: " ∷ a.type ∷ [])))
      else (elim done [ some e ↦ (x, err e) | none ↦ store_execution (new_execution now a x) ])
]
