-- ===== src/Workflows/Engine/Requests.antt =====
-- The actions that the engine makes of an event.
use auxitalk.Base.{
  ◌⊎◌, ℕ, String, true, false, List, [], ◌∷◌, Option, none, Error, ◌≡◌, ◌≢◌, refl, arith, ◌==◌,
  string_eq, if◌then◌else◌, concat, is_blank, All, Option-cases, inl, inr,
}
use auxitalk.Base.Text.{all_space, is_space, is_blank-concat}
use auxitalk.Base.Int.{inc}
use auxitalk.Base.Decimal.{decimal}
use auxitalk.Types.Event.{Event, Time}
use auxitalk.Types.Action.{ActionRequest, requested, is_risk, is_status}
use auxitalk.Types.Action
use auxitalk.Types.Session.{Session}
use auxitalk.Types.Workflow.{
  WorkflowRule, WorkflowAction, validate_rule, get_actions, validate_actions,
}
use auxitalk.Workflows.Engine.{
  Engine, new_action, new_actions, new_actions_loop, first_error, set_rules,
}

first_error-none :
    (rs : List WorkflowRule) → first_error rs ≡ none → All (λ r. validate_rule r ≡ none) rs
unfolding first_error
first_error-none [] h = tt
first_error-none (r ∷ rs) h = ground (arith, first_error-none rs)

first_error_valid :
    (rs : List WorkflowRule) → All (λ r. validate_rule r ≡ none) rs → first_error rs ≡ none
unfolding first_error
first_error_valid [] h = refl
first_error_valid (r ∷ rs) h = rw (h.0, first_error) (first_error_valid rs h.1)

pub set_rules_valid :
    (rules : List WorkflowRule) (e : Engine)
    → All (λ r. validate_rule r ≡ none) rules
    → set_rules rules e ≡ (record e { rules = rules }, none)
unfolding set_rules
set_rules_valid rules e h = rw (first_error_valid rules h, set_rules)

-- A rejected list of rules leaves the engine as it was; an accepted one replaces all its rules, and
-- each of them is valid.
set_rules_atomic :
    (rules : List WorkflowRule) (e : Engine)
    → (((set_rules rules e).1 ≢ none) × ((set_rules rules e).0 ≡ e))
      ⊎ (((set_rules rules e).1 ≡ none)
          × ((set_rules rules e).0.rules ≡ rules)
          × All (λ r. validate_rule r ≡ none) (set_rules rules e).0.rules)
unfolding set_rules
set_rules_atomic rules e = elim (Option-cases (first_error rules)) [
  | inl p ↦ rw (p, set_rules) (inr (refl, refl, first_error-none rules p))
  | inr (x, p) ↦ rw (p, set_rules) (inl ((λ q. cc), refl))
]

-- What every requested action takes over from its rule and its event.
pub record Inherits (rule : WorkflowRule) (e : Event) (a : ActionRequest) : Type 0 where
  pub source : a.source ≡ concat ("workflow:" ∷ rule.id ∷ [])
  pub session : a.session_id ≡ e.session_id
  pub trace : a.trace_id ≡ (if e.trace_id == "" then e.id else e.trace_id)
  pub depth : a.depth ≡ inc e.depth
  pub status : a.status ≡ requested

-- Of a rule's action: its type is not blank, its risk is a risk.
abbrev IsAction : WorkflowAction → Type 0
IsAction a = (is_blank a.type ≡ false) × (is_risk a.risk ≡ true)

validate_actions-IsAction :
    (as' : List WorkflowAction) → validate_actions as' ≡ none → All IsAction as'
unfolding validate_actions
validate_actions-IsAction [] h = tt
validate_actions-IsAction (a ∷ as') h = ground (arith, validate_actions-IsAction as')

new_action-valid :
    (rule : WorkflowRule) (a : WorkflowAction) (e : Event) (session : Session) (seq : ℕ)
    (now : Time)
    → IsAction a
    → now ≢ 0
    → Action.validate (new_action rule a e session seq now) ≡ none
unfolding Action.validate new_action is_status all_space is_space
new_action-valid rule a e session seq now h n = ground (
  arith,
  is_blank-concat "workflow-" (rule.id ∷ "-" ∷ decimal seq ∷ []) refl,
  is_blank-concat "workflow:" (rule.id ∷ []) refl,
)

rule_actions :
    (rule : WorkflowRule) → validate_rule rule ≡ none → validate_actions (get_actions rule) ≡ none
unfolding validate_rule
rule_actions rule h = ground arith

module _ {S : Type 0} (engine : S → Engine) (set_engine : Engine → S → S) (clock : S → S × Time)
    (resolve : String → S → Option Session) (sink : ActionRequest → S → S × Option Error) where
  abbrev made : WorkflowRule → Event → S → List ActionRequest
  made rule e s = (new_actions engine set_engine clock resolve sink rule e s).1

  abbrev made_loop :
      WorkflowRule → Event → Session → List WorkflowAction → S → S × List ActionRequest
  made_loop = new_actions_loop engine set_engine clock resolve sink

  loop-Inherits :
      (rule : WorkflowRule) (e : Event) (session : Session) (as' : List WorkflowAction) (s : S)
      → All (Inherits rule e) (made_loop rule e session as' s).1
  unfolding new_actions_loop new_action
  loop-Inherits rule e session [] s = tt
  loop-Inherits rule e session (a ∷ as') s = (
    record { source = refl; session = refl; trace = refl; depth = refl; status = refl },
    loop-Inherits rule e session as' _,
  )

  loop-valid :
      (rule : WorkflowRule) (e : Event) (session : Session) (as' : List WorkflowAction) (s : S)
      → ((x : S) → (clock x).1 ≢ 0)
      → All IsAction as'
      → All (λ a. Action.validate a ≡ none) (made_loop rule e session as' s).1
  unfolding new_actions_loop
  loop-valid rule e session [] s n h = tt
  loop-valid rule e session (a ∷ as') s n h =
      (new_action-valid rule a e session _ _ h.0 (n _), loop-valid rule e session as' _ n h.1)

  -- Every action that a valid rule makes of an event takes the event's session and trace (the
  -- event's id, where it has no trace), lies one level deeper, names the rule as its source and is
  -- requested; and it is valid, provided that the clock never reads the zero time.
  pub new_actions-Inherits :
      (rule : WorkflowRule) (e : Event) (s : S)
      → ((x : S) → (clock x).1 ≢ 0)
      → validate_rule rule ≡ none
      → All (Inherits rule e) (new_actions engine set_engine clock resolve sink rule e s).1
        × All
            (λ a. Action.validate a ≡ none)
            (new_actions engine set_engine clock resolve sink rule e s).1
  unfolding new_actions
  new_actions-Inherits rule e s n v = (
    loop-Inherits rule e _ (get_actions rule) s,
    loop-valid rule e _ (get_actions rule) s n
        (validate_actions-IsAction (get_actions rule) (rule_actions rule v)),
  )
