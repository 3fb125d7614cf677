-- ===== src/Runtime/Tests.antt =====
-- Runs of the runtime: a workflow that answers a greeting, and the requests of users and plugins.
use mathlib.Core.List.Perm
use auxitalk.Base.{
  String, arith, eq_iff, true, ◌≢◌, ◌⊎◌, ℕ, ◌+◌, pos, [], ◌∷◌, ◌++◌, none, some, ok, ◌≡◌, refl,
  string_eq,
}
use auxitalk.Base.Map.{lookup, values}
use auxitalk.Base.Text.{concat}
use auxitalk.Types.Event.{Time}
use auxitalk.Types.Samples.{greeting, reply, reply_valid, greet, greeter, talk}
use auxitalk.Types.Action.{ActionRequest, allowed, denied}
use auxitalk.Actions.Gate.{decide, mode_local}
use auxitalk.Storage.{Storage, action_row}
use auxitalk.Workflows.Registry.{list}
use auxitalk.Runtime.Reload.{reload_workflows, switch_workflow, switch_first}
use auxitalk.Runtime.Reload.Consistent.{Agrees, reload_workflows-Agrees}
use auxitalk.Runtime.Deps.{Runtime, persistence, workflow, tracking}
use auxitalk.Runtime.Publish.{gate_action, Publisher, publish_at, accept_action}
use auxitalk.Runtime.Publish.Permitted.{Grown, publish_at-Grown}
use auxitalk.Runtime.Mutations.{
  approve_action, deny_action, accept_plugin_action, handle_action_request, rejected,
  err_invalid_params,
}
use auxitalk.Types.Value.{end}
use auxitalk.Types.Execution.{ActionExecution}
use auxitalk.Runtime.Publish.Still.{rows_of}
use auxitalk.Runtime.Mutations.Gated.{Taken, gate_effect}
use auxitalk.Runtime.Mutations.Effects.{
  row_of, with_status, approve_any, deny_effect, accepted_rows,
}

abbrev tick : ℕ → Time
tick n = 63_900_000_000_000_000_000 + n

abbrev empty : Storage
empty = record { events = []; actions = []; workflows = []; sessions = []; fault = none }

abbrev start : Runtime
start = record {
  mode = mode_local;
  bus = record {
    handler_timeout = pos 5_000_000_000;
    history_limit = pos 100;
    subscribers = [];
    wildcards = (1, persistence) ∷ (2, workflow) ∷ (3, tracking) ∷ [];
    history = [];
    next_id = 3;
  };
  actions = [];
  registry = ("w1", greeter) ∷ [];
  engine = record { rules = greet ∷ []; id_seq = 0 };
  sessions = ("s1", talk) ∷ [];
  storage = some empty;
  reads = 0;
  running = [];
}

publish_at-Grown_example :
    Grown mode_local [] (publish_at tick (λ m. m) (λ m. m) 3 greeting start).0
publish_at-Grown_example = publish_at-Grown tick (λ m. m) (λ m. m) 3 greeting start

-- the publisher of the daemon's bus, nested three deep
abbrev publishing : Publisher
publishing = publish_at tick (λ m. m) (λ m. m) 3

abbrev heard : String
heard = "message.received"

-- the rule that answers a greeting reacts to no event on an action
unheard :
    (heard ≢ "action.approved")
    × (heard ≢ "action.requested")
    × (heard ≢ "action.executed")
    × (heard ≢ "*")
    × (heard ≢ "action.denied")
unheard = ground (
  arith,
  eq_iff heard "action.approved",
  eq_iff heard "action.requested",
  eq_iff heard "action.executed",
  eq_iff heard "*",
  eq_iff heard "action.denied",
)

abbrev refused : ActionRequest
refused = record reply { status = denied }

abbrev holding : Runtime
holding = record start { actions = ("a1", refused) ∷ [] }

held : lookup "a1" holding.actions ≡ some refused
unfolding lookup
held = refl

abbrev pending : Runtime
pending = record start { actions = ("a1", reply) ∷ [] }

requested : lookup "a1" pending.actions ≡ some reply
unfolding lookup
requested = refl

approve_any_example :
    ((approve_action tick publishing "a1" holding).1 ≡ ok (with_status refused allowed))
    × (lookup "a1" (approve_action tick publishing "a1" holding).0.actions
        ≡ some (with_status refused allowed))
    × ((approve_action tick publishing "a1" holding).0.running
        ≡ [] ++ with_status refused allowed ∷ [])
approve_any_example =
    approve_any tick (λ m. m) (λ m. m) 3 "a1" refused holding held ((unheard.0, unheard.3), tt)

deny_effect_example :
    ((deny_action tick publishing "a1" pending).1 ≡ ok (with_status reply denied))
    × (lookup "a1" (deny_action tick publishing "a1" pending).0.actions
        ≡ some (with_status reply denied))
    × ((deny_action tick publishing "a1" pending).0.running ≡ [])
deny_effect_example =
    deny_effect tick (λ m. m) (λ m. m) 3 "a1" reply pending requested ((unheard.4, unheard.3), tt)

accepted_rows_example :
    (row_of (accept_action tick publishing reply start).storage "a1" ≡ some (action_row reply))
    × (rows_of (accept_plugin_action tick publishing reply start).storage ≡ some empty.actions)
accepted_rows_example =
    accepted_rows tick (λ m. m) (λ m. m) 3 reply start empty refl refl reply_valid
      ((unheard.1, unheard.3), tt)

undecoded :
    handle_action_request tick publishing "telegram" none start
    ≡ (start, rejected err_invalid_params "invalid action params")
unfolding handle_action_request
undecoded = refl

reload_workflows-Agrees_example :
    (((reload_workflows (λ m. m) (greeter ∷ []) start).1 ≢ none)
      × ((reload_workflows (λ m. m) (greeter ∷ []) start).0.registry ≡ start.registry)
      × ((reload_workflows (λ m. m) (greeter ∷ []) start).0.engine ≡ start.engine))
    ⊎ (((reload_workflows (λ m. m) (greeter ∷ []) start).1 ≡ none)
        × Agrees (λ m. m) (reload_workflows (λ m. m) (greeter ∷ []) start).0)
reload_workflows-Agrees_example =
    reload_workflows-Agrees (λ m. m) (greeter ∷ []) start (λ m. Perm.refl m)

missing_workflow :
    (switch_workflow (λ m. m) (λ m. m) "w9" true start).1 ≡ some "workflow not found: w9"
unfolding switch_workflow switch_first list values concat
missing_workflow = refl

abbrev run : ActionExecution
run = record {
  id = "x1";
  action_id = "a1";
  type = "send_message";
  status = "completed";
  dry_run = true;
  input = end;
  result = end;
  error = "";
  created_at = 7;
  completed_at = 7;
}

gate_effect_example :
    (((decide mode_local reply).0 ≡ "")
      × ((gate_action tick publishing reply start).0 ≡ start)
      × ((gate_action tick publishing reply start).1 ≢ none))
    ⊎ (((decide mode_local reply).0 ≢ "")
        × ((gate_action tick publishing reply start).1 ≡ none)
        × Taken
            (with_status reply (decide mode_local reply).0)
            start
            (gate_action tick publishing reply start).0)
gate_effect_example = gate_effect tick (λ m. m) (λ m. m) 3 reply start ((unheard.1, unheard.3), tt)
