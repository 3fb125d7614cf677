-- ===== src/Workflows/Tests.antt =====
-- Runs of the engine, the registry and the executor on the sample rule.
use auxitalk.Base.{
  Option, true, false, List, [], ◌∷◌, ◌++◌, none, some, Error, ok, err, ◌≡◌, ◌≢◌, ◌↔◌, ◌⊎◌, refl,
  arith, All, eq_iff, string_eq,
}
use auxitalk.Base.Map.{lookup, put}
use auxitalk.Base.Text.{
  concat, strip_prefix, replace_from, replace_all, has_prefix, trim_prefix, is_blank, trim_space,
  trim_left, trim_right, is_space,
}
use auxitalk.Types.Value.{get_field, sprint}
use auxitalk.Types.Action.{ActionRequest, is_risk, is_status}
use auxitalk.Types.Action
use auxitalk.Types.Samples.{reply, greeting, greet, greet_valid, greeter, greeter_valid, talk, send}
use auxitalk.Types.Workflow.{
  is_empty, WorkflowRule, validate_rule, validate_rules, validate_actions, get_actions, seen_has,
  filter_enabled, enabled_rules, matches, all_match,
}
use auxitalk.Types.Workflow
use auxitalk.Types.Workflow.Condition.{WorkflowCondition, actual_of, compare_by, print_field}
use auxitalk.Types.Workflow.Condition
use auxitalk.Workflows.Registry.{
  enable, new_registry, register, set_enabled, disable, rules_of, registry_rules, get,
}
use auxitalk.Workflows.Interpolate.{
  interpolate_string, replace_event, replace_session, replace_payload, replace_metadata,
}
use auxitalk.Workflows.Registry.Valid.{IsRegistry, registry-IsRegistry}
use auxitalk.Types.Workflow.Matching.{matches_iff}
use auxitalk.Types.Workflow.Distinct.{AreDistinct, validate_iff}
use auxitalk.Types.Execution.{is_workflow_action_type}
use auxitalk.Workflows.Executor.{new_executor, execute, new_execution}
use auxitalk.Workflows.Executor.Exact.{execute_exact}
use auxitalk.Workflows.Engine.{Engine, new_actions}
use auxitalk.Workflows.Engine.Requests.{Inherits, new_actions-Inherits}
use auxitalk.Workflows.Engine.Numbered.{HasDistinctIds, new_actions-HasDistinctIds}

abbrev start : Engine
start = record { rules = greet ∷ []; id_seq = 0 }

abbrev made : List ActionRequest
made =
    (new_actions {S = Engine} (λ s. s) (λ x s. x) (λ s. (s, 7)) (λ i s. some talk)
      (λ a s. (s, none)) greet greeting start).1

new_actions-Inherits_example :
    All (Inherits greet greeting) made × All (λ a. Action.validate a ≡ none) made
new_actions-Inherits_example =
    new_actions-Inherits (λ s. s) (λ x s. x) (λ s. (s, 7)) (λ i s. some talk) (λ a s. (s, none))
      greet greeting start (λ x. omega arith) greet_valid

-- two messages for one event
abbrev twice : WorkflowRule
twice = record greet { actions = send ∷ send ∷ [] }

new_actions-HasDistinctIds_example :
    HasDistinctIds
      (new_actions
        (λ s. s)
        (λ x s. x)
        (λ s. (s, 7))
        (λ i s. some talk)
        (λ a s. (s, none))
        twice
        greeting
        start).1
unfolding get_actions
new_actions-HasDistinctIds_example =
    new_actions-HasDistinctIds (λ s. s) (λ x s. x) (λ s. (s, 7)) (λ i s. some talk)
      (λ a s. (s, none)) (λ x s. refl) (λ s. refl) twice greeting start (omega arith)

one-IsRegistry : IsRegistry (("w1", greeter) ∷ [])
unfolding lookup
one-IsRegistry = record {
  is_map = (refl, tt);
  valid = λ k w p. ground (arith, eq_iff "w1" k, greeter_valid);
}

registry-IsRegistry_example :
    IsRegistry (register (record greeter { id = "w2" }) (("w1", greeter) ∷ [])).0
    × IsRegistry (enable "w1" (("w1", greeter) ∷ [])).0
    × IsRegistry (disable "w1" (("w1", greeter) ∷ [])).0
registry-IsRegistry_example =
    registry-IsRegistry (record greeter { id = "w2" }) "w1" (("w1", greeter) ∷ []) one-IsRegistry

interpolated : interpolate_string "{{payload.text}} in {{session.id}}" greeting talk ≡ "hello in s1"
unfolding interpolate_string replace_event replace_session replace_payload replace_metadata
    replace_all replace_from strip_prefix concat sprint
interpolated = refl

abbrev long_text : WorkflowCondition
long_text = record { field = "payload.text"; operator = "starts_with"; value = "he" }

matched : Workflow.matches greet greeting talk ≡ true
unfolding Workflow.matches all_match
matched = refl

held : Condition.matches long_text greeting talk ≡ true
unfolding Condition.matches actual_of compare_by print_field has_prefix trim_prefix strip_prefix
    sprint get_field
held = refl

registered : get "w1" (register greeter new_registry).0 ≡ some greeter
unfolding register get Workflow.validate validate_rules seen_has validate_rule validate_actions
    get_actions is_risk is_blank trim_space trim_left trim_right is_space lookup put
registered = refl

switched_off : registry_rules (λ m. m) (disable "w1" (("w1", greeter) ∷ [])).0 ≡ []
unfolding registry_rules rules_of disable set_enabled enabled_rules lookup put
switched_off = refl

switched_on : registry_rules (λ m. m) (("w1", greeter) ∷ []) ≡ greet ∷ []
unfolding registry_rules rules_of enabled_rules filter_enabled
switched_on = refl

validate_iff_example : (Workflow.validate greeter ≡ none) ↔ (
    (is_blank greeter.id ≡ false)
    × (is_empty greeter.rules ≡ false)
    × All (λ x. validate_rule x ≡ none) greeter.rules
    × AreDistinct greeter.rules)
validate_iff_example = validate_iff greeter

-- the error of a context that is not over
abbrev live : Option Error
live = none

execute_exact_example :
    ((Action.validate reply ≡ none)
      × (is_workflow_action_type "send_message" ≡ true)
      × (live ≡ none)
      × ((execute live 7 reply new_executor).1 ≡ ok (new_execution 7 reply new_executor).1)
      × ((execute live 7 reply new_executor).0.executions
          ≡ [] ++ (new_execution 7 reply new_executor).1 ∷ []))
    ⊎ (((Action.validate reply ≢ none)
          ⊎ (is_workflow_action_type "send_message" ≡ false)
          ⊎ (live ≢ none))
        × ((e : Error) × ((execute live 7 reply new_executor).1 ≡ err e))
        × ((execute live 7 reply new_executor).0 ≡ new_executor))
execute_exact_example = execute_exact live 7 reply new_executor (omega arith)

matches_iff_example : (Workflow.matches greet greeting talk ≡ true) ↔ (
    (greet.enabled ≡ true)
    × ((greet.trigger.event_type ≡ "*") ⊎ (greet.trigger.event_type ≡ greeting.type))
    × ((greet.trigger.source ≡ "") ⊎ (greet.trigger.source ≡ greeting.source))
    × All (λ c. Condition.matches c greeting talk ≡ true) greet.trigger.conditions)
matches_iff_example = matches_iff greeting talk greet
