-- ===== src/Types/Workflow/Condition.antt =====
-- WorkflowCondition of pkg/types/workflow.go
use auxitalk.Base.{
  String, Bool, false, Option, none, some, ◌||◌, ◌==◌, string_eq, if◌then◌else◌, not, contains,
  has_prefix, has_suffix, trim_prefix,
}
use auxitalk.Types.Value.{Fields, get_field, sprint}
use auxitalk.Types.Event.{Event}
use auxitalk.Types.Session.{Session}

pub record WorkflowCondition : Type 0 where
  pub field : String
  pub operator : String
  pub value : String

-- `if val, ok := m[key]; ok { actual = fmt.Sprint(val) }`: the zero value "" if the key is missing
unfoldable pub print_field : String → Fields → String
print_field key m = elim (get_field key m) [ none ↦ "" | some v ↦ sprint v ]

-- The value that the condition's field names; `none` for a field that is not supported.
unfoldable pub actual_of : String → Event → Session → Option String
actual_of f event session =
    if f == "sessionId" || f == "session.id"
    then some event.session_id
    else if f == "session.channel"
    then some session.channel
    else if f == "session.state"
    then some session.state
    else if has_prefix f "session.metadata."
    then some (print_field (trim_prefix f "session.metadata.") session.metadata)
    else if has_prefix f "payload."
    then some (print_field (trim_prefix f "payload.") event.payload)
    else none

-- `switch c.Operator`
unfoldable pub compare_by : String → String → String → Bool
compare_by op actual value =
    if op == "equals" || op == "=="
    then actual == value
    else if op == "not_equals" || op == "!="
    then not (actual == value)
    else if op == "contains"
    then contains actual value
    else if op == "not_contains"
    then not (contains actual value)
    else if op == "starts_with"
    then has_prefix actual value
    else if op == "ends_with"
    then has_suffix actual value
    else false

unfoldable pub matches : WorkflowCondition → Event → Session → Bool
matches c event session = elim (actual_of c.field event session) [
  | none ↦ false
  | some actual ↦ compare_by c.operator actual c.value
]
