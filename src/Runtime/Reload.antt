-- ===== src/Runtime/Reload.antt =====
-- ReloadWorkflows, EnableWorkflow and DisableWorkflow.
pub mod Consistent
pub mod Kept
use auxitalk.Base.{
  String, Bool, true, false, List, [], ◌∷◌, Option, none, some, Error, ◌==◌, string_eq,
  if◌then◌else◌, concat,
}
use auxitalk.Types.Workflow.{Workflow}
use auxitalk.Storage.{replace_workflows}
use auxitalk.Workflows.Registry.{Registry, new_registry, register, registry_rules, list}
use auxitalk.Workflows.Engine.{set_rules}
use auxitalk.Runtime.Deps.{Runtime}

-- the loop over the new workflows
pub register_each : List Workflow → Registry → Registry × Option Error
register_each [] reg = (reg, none)
register_each (w ∷ ws) reg =
    let (reg', o) = register w reg in
    (elim o [ some e ↦ (reg', some e) | none ↦ register_each ws reg' ])

-- ReplaceWorkflows, if the storage is open
pub store_workflows : List Workflow → Runtime → Runtime × Option Error
store_workflows ws r = elim r.storage [
  | none ↦ (r, none)
  | some st ↦ (record r { storage = some (replace_workflows ws st).0 }, (replace_workflows ws st).1)
]

-- `order` is that of the iteration of EnabledRules.
unfoldable pub install : (order : Registry → Registry) → Registry → Runtime → Runtime × Option Error
install order reg r =
    let (x, o) = set_rules (registry_rules order reg) r.engine in
    (record r { registry = reg; engine = x }, o)

pub reload_workflows :
    (order : Registry → Registry) → List Workflow → Runtime → Runtime × Option Error
unfolding register_each store_workflows install
reload_workflows order ws r = elim (register_each ws new_registry).1 [
  | some e ↦ (r, some e)
  | none ↦ elim (store_workflows ws r).1 [
    | some e ↦ ((store_workflows ws r).0, some e)
    | none ↦ install order (register_each ws new_registry).0 (store_workflows ws r).0
  ]
]

-- the loop of EnableWorkflow and DisableWorkflow over the listed workflows; `none` if none changed
unfoldable pub switch_first : String → Bool → List Workflow → Option (List Workflow)
switch_first id on [] = none
switch_first id on (w ∷ ws) =
    let rest = switch_first id on ws in
    if w.id == id
    then some (record w { enabled = on } ∷ ws)
    else (elim rest [ none ↦ none | some ws' ↦ some (w ∷ ws') ])

-- EnableWorkflow for `true` and DisableWorkflow for `false`; `listing` is the order of List.
unfoldable pub switch_workflow :
    (listing order : Registry → Registry) → String → Bool → Runtime → Runtime × Option Error
unfolding switch_first reload_workflows
switch_workflow listing order id on r = elim (switch_first id on (list listing r.registry)) [
  | none ↦ (r, some (concat ("workflow not found: " ∷ id ∷ [])))
  | some ws ↦ reload_workflows order ws r
]
