-- ===== src/Workflows/Registry/Valid.antt =====
-- A registry holds valid workflows only, so that the engine never refuses its rules.
use mathlib.Core.List.{Mem, mem-cons}
use mathlib.Core.Logic.Or
use auxitalk.Base.{
  String, Bool, true, false, List, [], ◌∷◌, Option, none, some, ◌≡◌, refl, arith, string_eq, inl,
  inr, Option-cases, Bool-cases, All, All-append, String-set,
}
use auxitalk.Base.Map.{lookup, put, IsMap, lookup-put, put-IsMap}
use auxitalk.Base.Map.Range.{IsOrder, mem-order}
use auxitalk.Types.Workflow.{
  Workflow, WorkflowRule, validate_rule, validate_rules, filter_enabled, enabled_rules, get_actions,
}
use auxitalk.Types.Workflow
use auxitalk.Workflows.Registry.{
  Registry, register, enable, disable, set_enabled, rules_of, registry_rules,
}

abbrev pub AreRules : List WorkflowRule → Type 0
AreRules rs = All (λ x. validate_rule x ≡ none) rs

pub record IsRegistry (r : Registry) : Type 0 where
  pub is_map : IsMap r
  pub valid : (k : String) (w : Workflow) → lookup k r ≡ some w → Workflow.validate w ≡ none

put-IsRegistry :
    (k : String) (w : Workflow) (r : Registry)
    → Workflow.validate w ≡ none
    → IsRegistry r
    → IsRegistry (put k w r)
put-IsRegistry k w r v h = record {
  is_map = put-IsMap k w r h.is_map;
  valid = λ j x p. ground (arith, lookup-put k j w r, h.valid j x);
}

pub register-IsRegistry : (w : Workflow) (r : Registry) → IsRegistry r → IsRegistry (register w r).0
unfolding register
register-IsRegistry w r h = elim (Option-cases (Workflow.validate w)) [
  | inr (x, p) ↦ rw (p, register) h
  | inl p ↦ elim (Option-cases (lookup w.id r)) [
    | inr (x, f) ↦ rw (p, f, register) h
    | inl f ↦ rw (p, f, register) (put-IsRegistry w.id w r p h)
  ]
]

switched-valid :
    (w : Workflow) (on : Bool)
    → Workflow.validate w ≡ none
    → Workflow.validate (record w { enabled = on }) ≡ none
unfolding Workflow.validate
switched-valid w on h = h

pub set_enabled-IsRegistry :
    (id : String) (on : Bool) (r : Registry) → IsRegistry r → IsRegistry (set_enabled id on r).0
unfolding set_enabled
set_enabled-IsRegistry id on r h = elim (Option-cases (lookup id r)) [
  | inl f ↦ rw (f, set_enabled) h
  | inr (w, f) ↦
      rw (f, set_enabled)
        (put-IsRegistry id (record w { enabled = on }) r (switched-valid w on (h.valid id w f)) h)
]

validate_rules-AreRules :
    (seen : List String) (rs : List WorkflowRule) → validate_rules seen rs ≡ none → AreRules rs
unfolding validate_rules
validate_rules-AreRules seen [] h = tt
validate_rules-AreRules seen (x ∷ rs) h = ground (arith, validate_rules-AreRules (x.id ∷ seen) rs)

filter_enabled-AreRules : (rs : List WorkflowRule) → AreRules rs → AreRules (filter_enabled rs)
unfolding filter_enabled validate_rule get_actions
filter_enabled-AreRules [] h = tt
filter_enabled-AreRules (x ∷ rs) h = elim (Bool-cases x.enabled) [
  | inl y ↦ rw y (h.0, filter_enabled-AreRules rs h.1)
  | inr n ↦ rw n (filter_enabled-AreRules rs h.1)
]

workflow_rules : (w : Workflow) → Workflow.validate w ≡ none → AreRules w.rules
unfolding Workflow.validate
workflow_rules w h =
    let v : validate_rules [] w.rules ≡ none = ground arith in validate_rules-AreRules [] w.rules v

enabled_rules-AreRules : (w : Workflow) → Workflow.validate w ≡ none → AreRules (enabled_rules w)
unfolding enabled_rules
enabled_rules-AreRules w h = elim (Bool-cases w.enabled) [
  | inl y ↦ rw y (filter_enabled-AreRules w.rules (workflow_rules w h))
  | inr n ↦ rw n tt
]

rules_of-AreRules :
    (m : Registry)
    → ((k : String) (w : Workflow) → Mem (k, w) m → Workflow.validate w ≡ none)
    → AreRules (rules_of m)
unfolding rules_of
rules_of-AreRules [] h = tt
rules_of-AreRules ((k, w) ∷ m) h =
    All-append (λ x. validate_rule x ≡ none) (enabled_rules w) (rules_of m)
      (enabled_rules-AreRules w (h k w (mem-cons.1 (Or.inl refl))))
      (rules_of-AreRules m (λ j x i. h j x (mem-cons.1 (Or.inr i))))

Workflow_set : IsSet (Option Workflow)
Workflow_set = hlevel String-set

-- The enabled rules of a registry are valid, in whatever order its workflows are met.
pub registry_rules-AreRules :
    (order : Registry → Registry) (r : Registry)
    → IsOrder order
    → IsRegistry r
    → AreRules (registry_rules order r)
unfolding registry_rules
registry_rules-AreRules order r o h =
    rules_of-AreRules (order r)
      (λ k w i. h.valid k w ((mem-order Workflow_set order k w r o h.is_map).0 i))

-- Registering, enabling and disabling keep the registry a map of valid workflows.
pub registry-IsRegistry :
    (w : Workflow) (id : String) (r : Registry)
    → IsRegistry r
    → IsRegistry (register w r).0 × IsRegistry (enable id r).0 × IsRegistry (disable id r).0
unfolding enable disable
registry-IsRegistry w id r h = (
  register-IsRegistry w r h,
  set_enabled-IsRegistry id true r h,
  set_enabled-IsRegistry id false r h,
)
