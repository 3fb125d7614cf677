-- ===== src/Runtime/Host/Fallback.antt =====
-- executeActionAsync: a workflow action is run by the engine's executor, another by a plugin's
-- capability.
use auxitalk.Base.{
  ℕ, if◌then◌else◌, String, Option, none, some, Error, Result, ok, err, concat, split_dot, [], ◌∷◌,
  false,
}
use auxitalk.Base.Decimal.{decimal}
use auxitalk.Types.Value.{Value, Fields, str, num, bool, null, obj, arr, end, put_field}
use auxitalk.Types.Event.{Time}
use auxitalk.Types.Action.{ActionRequest}
use auxitalk.Types.Execution.{ActionExecution, completed, is_workflow_action_type}
use auxitalk.Workflows.Executor.{MockExecutor, execute}
use auxitalk.Runtime.Publish.{Publisher}
use auxitalk.Runtime.Mutations.{complete_action}
use auxitalk.Capabilities.{Router, resolve}
use auxitalk.Rpc.Protocol.{Raw}
use auxitalk.Runtime.Deps.{unix_nano}
use auxitalk.Runtime.Host.{Host, Target}

-- What the router's Call gives: nothing with an error of its own, or the text of the plugin's
-- result, "" for nil, with the error of the plugin's call.
abbrev pub Called : Type 0
Called = Option Raw × Option Error

-- `invoke` is the call of a plugin's capability.
unfoldable pub call_capability :
    (invoke : Target → Fields → Raw × Option Error)
    → String
    → String
    → Fields
    → Router Target
    → Called
call_capability invoke plugin_id capability input r = elim (resolve plugin_id capability r) [
  | err e ↦ (none, some e)
  | ok t ↦ (some (invoke t input).0, (invoke t input).1)
]

-- the result of an execution, from what json.Unmarshal makes of a decoded value
abbrev pub fields_of : Value → Fields
fields_of (obj fs) = fs
fields_of (str s) = put_field "data" (str s) end
fields_of (num s) = put_field "data" (num s) end
fields_of (bool b) = put_field "data" (bool b) end
fields_of null = put_field "data" null end
fields_of (arr xs) = put_field "data" (arr xs) end

unfoldable pub result_fields : (decode : Raw → Result Value) → Option Raw → Fields
result_fields decode none = end
result_fields decode (some raw) = elim (decode raw) [
  | err _ ↦ put_field "data" (str raw) end
  | ok v ↦ fields_of v
]

-- the zero value
abbrev pub no_execution : ActionExecution
no_execution = record {
  id = "";
  action_id = "";
  type = "";
  status = "";
  dry_run = false;
  input = end;
  result = end;
  error = "";
  created_at = 0;
  completed_at = 0;
}

abbrev pub with_result : Result ActionExecution → ActionExecution × Option Error
with_result (err e) = (no_execution, some e)
with_result (ok x) = (x, none)

-- `stamp`, `created` and `ended` are the times that are read.
unfoldable pub run_capability :
    (decode : Raw → Result Value)
    → (invoke : Target → Fields → Raw × Option Error) → ActionRequest
    → (stamp created ended : Time) → Router Target
    → ActionExecution × Option Error
unfolding call_capability result_fields
run_capability decode invoke a stamp created ended r =
    let (plugin_id, rest) = split_dot a.type in
    elim rest [
      | none ↦ (no_execution, some (concat ("unknown action type: " ∷ a.type ∷ [])))
      | some capability ↦
          (let (raw, failed) = call_capability invoke plugin_id capability a.payload r in
            (
              record {
                id = concat ("exec-" ∷ a.id ∷ "-" ∷ decimal (unix_nano stamp) ∷ []);
                action_id = a.id;
                type = a.type;
                status = completed;
                dry_run = false;
                input = a.payload;
                result = result_fields decode raw;
                error = "";
                created_at = created;
                completed_at = ended;
              },
              failed,
            ))
    ]

-- Engine.ExecuteAction, for the executor of the engine if there is one
unfoldable pub execute_action :
    Option Error
    → Time
    → ActionRequest
    → Option MockExecutor
    → Option MockExecutor × (ActionExecution × Option Error)
execute_action expiry time a none =
    (none, (no_execution, some "workflow executor is not configured"))
execute_action expiry time a (some x) =
    (some (execute expiry time a x).0, with_result (execute expiry time a x).1)

-- The run of an action: `expiry` is the error of the context if it is over, `time` the time that the
-- executor reads.
unfoldable pub run_action :
    (decode : Raw → Result Value)
    → (invoke : Target → Fields → Raw × Option Error) → (expiry : Option Error)
    → (time stamp created ended : Time) → ActionRequest
    → Option MockExecutor
    → Router Target
    → Option MockExecutor × (ActionExecution × Option Error)
unfolding execute_action run_capability
run_action decode invoke expiry time stamp created ended a x r =
    if is_workflow_action_type a.type
    then execute_action expiry time a x
    else (x, run_capability decode invoke a stamp created ended r)

-- The goroutine of executeActionAsync.
unfoldable pub execute_and_complete :
    (ℕ → Time)
    → Publisher
    → (decode : Raw → Result Value) → (invoke : Target → Fields → Raw × Option Error)
    → (expiry : Option Error) → (time stamp created ended : Time) → ActionRequest
    → Option MockExecutor
    → Host
    → Option MockExecutor × Host
unfolding run_action complete_action
execute_and_complete time_at publish decode invoke expiry time stamp created ended a x h =
    let (x', (execution, failure)) =
      run_action decode invoke expiry time stamp created ended a x h.router in
    (x', record h { runtime = complete_action time_at publish a execution failure h.runtime })
