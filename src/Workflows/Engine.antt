-- ===== src/Workflows/Engine.antt =====
-- internal/workflows/engine.go. The engine works on a state `S` that holds it: the sink of the
-- actions, the sessions and the clock belong to the program around it.
pub mod Requests
pub mod Keeps
pub mod Numbered
use auxitalk.Base.{
  ℕ, ◌+◌, ◌%◌, ◌^◌, String, true, false, List, [], ◌∷◌, ◌++◌, Option, none, some, Error, ◌==◌, ◌||◌,
  string_eq, if◌then◌else◌, concat, not,
}
use auxitalk.Base.Decimal.{decimal}
use auxitalk.Base.Int.{inc}
use auxitalk.Types.Value.{Fields, str, end, field, put_field}
use auxitalk.Types.Event.{Event, Time}
use auxitalk.Types.Event
use auxitalk.Types.Action.{ActionRequest, requested}
use auxitalk.Types.Action
use auxitalk.Types.Session.{Session}
use auxitalk.Types.Workflow.{WorkflowRule, WorkflowAction, validate_rule, get_actions}
use auxitalk.Types.Workflow
use auxitalk.Workflows.Interpolate.{interpolate}

pub record Engine : Type 0 where
  pub rules : List WorkflowRule
  pub id_seq : ℕ  -- uint64

-- the loop of SetRules: the first error of a rule
unfoldable pub first_error : List WorkflowRule → Option Error
first_error [] = none
first_error (r ∷ rs) = elim (validate_rule r) [ some e ↦ some e | none ↦ first_error rs ]

unfoldable pub set_rules : List WorkflowRule → Engine → Engine × Option Error
set_rules rules e = elim (first_error rules) [
  | some x ↦ (e, some x)
  | none ↦ (record e { rules = rules }, none)
]

-- types.Session{}
abbrev pub zero_session : Session
zero_session = record {
  id = "";
  channel = "";
  participants = [];
  messages = [];
  state = "";
  metadata = end;
  created_at = 0;
  updated_at = 0;
}

-- for key, value := range action.Payload { payload[key] = interpolate(…) }
pub add_payload : Fields → Event → Session → Fields → Fields
add_payload end event session payload = payload
add_payload (field key value m) event session payload =
    add_payload m event session (put_field key (interpolate value event session) payload)

pub request_payload : WorkflowRule → WorkflowAction → Event → Session → Fields
unfolding add_payload
request_payload rule action event session = add_payload action.payload event session (
    put_field "eventSource" (str event.source) (
      put_field "eventType" (str event.type)
        (put_field "eventId" (str event.id) (put_field "workflowRuleId" (str rule.id) end))))

abbrev pub trace_of : Event → String
trace_of event = if event.trace_id == "" then event.id else event.trace_id

-- one round of the loop of newActions, with the sequence number and the time that it reads
pub new_action : WorkflowRule → WorkflowAction → Event → Session → ℕ → Time → ActionRequest
new_action rule action event session seq now = record {
  id = concat ("workflow-" ∷ rule.id ∷ "-" ∷ decimal seq ∷ []);
  type = action.type;
  risk = action.risk;
  status = requested;
  source = concat ("workflow:" ∷ rule.id ∷ []);
  session_id = event.session_id;
  trace_id = trace_of event;
  depth = inc event.depth;
  payload = request_payload rule action event session;
  created_at = now;
}

module _ {S : Type 0} (engine : S → Engine) (set_engine : Engine → S → S) (clock : S → S × Time)
    (resolve : String → S → Option Session) (sink : ActionRequest → S → S × Option Error) where
  -- The session of the event, or the zero session.
  pub session_of : Event → S → Session
  session_of event s =
      if event.session_id == ""
      then zero_session
      else (elim (resolve event.session_id s) [ none ↦ zero_session | some x ↦ x ])

  -- the loop of newActions
  pub new_actions_loop :
      WorkflowRule → Event → Session → List WorkflowAction → S → S × List ActionRequest
  new_actions_loop rule event session [] s = (s, [])
  new_actions_loop rule event session (action ∷ as') s =
      let seq = ((engine s).id_seq + 1) % 2 ^ 64 in
      let (s', now) = clock (set_engine (record (engine s) { id_seq = seq }) s) in
      let (s'', rest) = new_actions_loop rule event session as' s' in
      (s'', new_action rule action event session seq now ∷ rest)

  pub new_actions : WorkflowRule → Event → S → S × List ActionRequest
  unfolding new_actions_loop session_of
  new_actions rule event s = new_actions_loop rule event (session_of event s) (get_actions rule) s

  -- The requested actions so far, and an error that ends the handling.
  abbrev pub Progress : Type 0
  Progress = S × (List ActionRequest × Option Error)

  -- the inner loop of HandleEvent
  pub request_all : List ActionRequest → List ActionRequest → S → Progress
  request_all [] requested s = (s, (requested, none))
  request_all (a ∷ as') requested s = elim (Action.validate a) [
    | some e ↦ (s, (requested, some e))
    | none ↦
        let (s', o) = sink a s in
        (elim o [
          | some e ↦ (s', (requested, some e))
          | none ↦ request_all as' (requested ++ a ∷ []) s'
        ])
  ]

  -- the outer loop
  unfoldable pub handle_rules :
      List WorkflowRule → Event → Session → List ActionRequest → S → Progress
  handle_rules [] event session requested s = (s, (requested, none))
  handle_rules (rule ∷ rules) event session requested s =
      elim (Workflow.matches rule event session) [
        | false ↦ handle_rules rules event session requested s
        | true ↦
            let (s', as') = new_actions rule event s in
            let (s'', p) = request_all as' requested s' in
            (elim (p.1) [
              | some e ↦ (s'', (p.0, some e))
              | none ↦ handle_rules rules event session (p.0) s''
            ])
      ]

  unfoldable pub handle_event : Event → S → Progress
  unfolding new_actions request_all handle_rules
  handle_event event s = elim (Event.validate event) [
    | some e ↦ (s, ([], some e))
    | none ↦ handle_rules (engine s).rules event (session_of event s) [] s
  ]
