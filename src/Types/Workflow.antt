-- ===== src/Types/Workflow.antt =====
-- pkg/types/workflow.go
pub mod Condition
pub mod Distinct
pub mod Matching
use auxitalk.Base.{
  String, Bool, true, false, List, [], ◌∷◌, Option, none, some, Error, or_else, ◌==◌, string_eq,
  ◌&&◌, if◌then◌else◌, is_blank, not,
}
use auxitalk.Types.Value.{Fields}
use auxitalk.Types.Event.{Event}
use auxitalk.Types.Session.{Session}
use auxitalk.Types.Action.{is_risk}
use Condition.{WorkflowCondition}
use Condition

pub record WorkflowTrigger : Type 0 where
  pub event_type : String
  pub source : String
  pub conditions : List WorkflowCondition

pub record WorkflowAction : Type 0 where
  pub type : String
  pub risk : String
  pub payload : Fields

pub record WorkflowRule : Type 0 where
  pub id : String
  pub name : String
  pub enabled : Bool
  pub trigger : WorkflowTrigger
  pub action : Option WorkflowAction  -- deprecated, use `actions`
  pub actions : List WorkflowAction

pub record Workflow : Type 0 where
  pub id : String
  pub name : String
  pub enabled : Bool
  pub rules : List WorkflowRule

-- WorkflowRule.GetActions, by cases on r.Actions and r.Action
abbrev pub actions_of : List WorkflowAction → Option WorkflowAction → List WorkflowAction
actions_of (a ∷ as') o = a ∷ as'
actions_of [] (some a) = a ∷ []
actions_of [] none = []

unfoldable pub get_actions : WorkflowRule → List WorkflowAction
get_actions r = actions_of r.actions r.action

-- the loop over the actions in WorkflowRule.Validate
unfoldable pub validate_actions : List WorkflowAction → Option Error
validate_actions [] = none
validate_actions (a ∷ as') =
    if is_blank a.type
    then some "workflow action type is required"
    else if not (is_risk a.risk)
    then some "workflow action risk is invalid"
    else validate_actions as'

abbrev pub is_empty {ℓ} : {A : Type ℓ} → List A → Bool
is_empty [] = true
is_empty (x ∷ xs) = false

unfoldable pub validate_rule : WorkflowRule → Option Error
validate_rule r =
    if is_blank r.id
    then some "workflow rule id is required"
    else if is_blank r.trigger.event_type
    then some "workflow trigger eventType is required"
    else if is_empty (get_actions r)
    then some "workflow requires at least one action"
    else validate_actions (get_actions r)

-- _, exists := seen[id]
unfoldable pub seen_has : String → List String → Bool
seen_has id [] = false
seen_has id (s ∷ seen) = if s == id then true else seen_has id seen

-- the loop over w.Rules, with the rule ids seen so far
unfoldable pub validate_rules : List String → List WorkflowRule → Option Error
validate_rules seen [] = none
validate_rules seen (r ∷ rs) = or_else (validate_rule r) (
    if seen_has r.id seen
    then some "workflow rule id must be unique"
    else validate_rules (r.id ∷ seen) rs)

unfoldable pub validate : Workflow → Option Error
validate w =
    if is_blank w.id
    then some "workflow id is required"
    else if is_empty w.rules
    then some "workflow requires at least one rule"
    else validate_rules [] w.rules

-- the loop of Workflow.EnabledRules
unfoldable pub filter_enabled : List WorkflowRule → List WorkflowRule
filter_enabled [] = []
filter_enabled (r ∷ rs) = let rest = filter_enabled rs in if r.enabled then r ∷ rest else rest

unfoldable pub enabled_rules : Workflow → List WorkflowRule
enabled_rules w = if not w.enabled then [] else filter_enabled w.rules

-- the loop over the conditions in WorkflowRule.Matches
unfoldable pub all_match : List WorkflowCondition → Event → Session → Bool
all_match [] event session = true
all_match (c ∷ cs) event session =
    if not (Condition.matches c event session) then false else all_match cs event session

unfoldable pub matches : WorkflowRule → Event → Session → Bool
matches r event session =
    if not r.enabled
    then false
    else if not (r.trigger.event_type == "*") && not (r.trigger.event_type == event.type)
    then false
    else if not (r.trigger.source == "") && not (r.trigger.source == event.source)
    then false
    else all_match r.trigger.conditions event session
