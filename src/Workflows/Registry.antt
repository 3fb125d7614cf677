-- ===== src/Workflows/Registry.antt =====
-- internal/workflows/registry.go
pub mod Valid
use auxitalk.Base.{
  String, Bool, true, false, List, [], ◌∷◌, ◌++◌, Option, none, some, Error, Result, ok, err,
  string_eq, concat,
}
use auxitalk.Base.Map.{lookup, put, values}
use auxitalk.Types.Workflow.{Workflow, WorkflowRule, enabled_rules}
use auxitalk.Types.Workflow

abbrev pub Registry : Type 0
Registry = List (String × Workflow)

-- NewRegistry
abbrev pub new_registry : Registry
new_registry = []

unfoldable pub already_exists : String → Error
already_exists id = concat ("workflow already exists: " ∷ id ∷ [])

unfoldable pub not_found : String → Error
not_found id = concat ("workflow not found: " ∷ id ∷ [])

unfoldable pub register : Workflow → Registry → Registry × Option Error
register w r = elim (Workflow.validate w) [
  | some e ↦ (r, some e)
  | none ↦ elim (lookup w.id r) [
    | some _ ↦ (r, some (already_exists w.id))
    | none ↦ (put w.id w r, none)
  ]
]

unfoldable pub list : (Registry → Registry) → Registry → List Workflow
unfolding values
list order r = values (order r)

unfoldable pub get : String → Registry → Option Workflow
get id r = lookup id r

unfoldable pub set_enabled : String → Bool → Registry → Registry × Result Workflow
set_enabled id enabled r = elim (lookup id r) [
  | none ↦ (r, err (not_found id))
  | some w ↦ (put id (record w { enabled = enabled }) r, ok (record w { enabled = enabled }))
]

unfoldable pub enable : String → Registry → Registry × Result Workflow
unfolding set_enabled
enable id r = set_enabled id true r

unfoldable pub disable : String → Registry → Registry × Result Workflow
unfolding set_enabled
disable id r = set_enabled id false r

-- the loop of EnabledRules
unfoldable pub rules_of : Registry → List WorkflowRule
rules_of [] = []
rules_of ((k, w) ∷ r) = enabled_rules w ++ rules_of r

unfoldable pub registry_rules : (Registry → Registry) → Registry → List WorkflowRule
unfolding rules_of
registry_rules order r = rules_of (order r)
