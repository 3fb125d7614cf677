-- ===== src/Runtime/Reload/Kept.antt =====
-- What reloading the workflows and switching one keep.
use auxitalk.Base.{String, Bool, List, refl, inl, inr, Option-cases}
use auxitalk.Types.Workflow.{Workflow}
use auxitalk.Workflows.Registry.{Registry, new_registry, list}
use auxitalk.Runtime.Deps.{Runtime}
use auxitalk.Runtime.Publish.Closed.{IsClosed}
use auxitalk.Runtime.Reload.{
  reload_workflows, register_each, store_workflows, install, switch_workflow, switch_first,
}

module _ (mode : String) (P : Runtime → Type 0) (c : IsClosed mode P) where
  store_workflows-keeps : (ws : List Workflow) (r : Runtime) → P r → P (store_workflows ws r).0
  unfolding store_workflows
  store_workflows-keeps ws r p = elim (Option-cases r.storage) [
    | inl n ↦ rw (n, store_workflows) p
    | inr (st, e) ↦ rw (e, store_workflows) (c.framed r _ refl refl refl refl refl p)
  ]

  -- `installs` is for the registry of the new workflows.
  module _ (order : Registry → Registry)
      (installs : (ws : List Workflow) (r : Runtime)
        → P r
        → P (install order (register_each ws new_registry).0 r).0) where
    pub reload-keeps : (ws : List Workflow) (r : Runtime) → P r → P (reload_workflows order ws r).0
    unfolding reload_workflows
    reload-keeps ws r p = elim (Option-cases (register_each ws new_registry).1) [
      | inr (x, e) ↦ rw (e, reload_workflows) p
      | inl n ↦ elim (Option-cases (store_workflows ws r).1) [
        | inr (x, e) ↦ rw (n, reload_workflows, e) (store_workflows-keeps ws r p)
        | inl m ↦ rw (n, reload_workflows, m) (installs ws _ (store_workflows-keeps ws r p))
      ]
    ]

    pub switch-keeps :
        (listing : Registry → Registry) (id : String) (on : Bool) (r : Runtime)
        → P r
        → P (switch_workflow listing order id on r).0
    unfolding switch_workflow
    switch-keeps listing id on r p =
        elim (Option-cases (switch_first id on (list listing r.registry))) [
          | inl n ↦ rw (n, switch_workflow) p
          | inr (ws, e) ↦ rw (e, switch_workflow) (reload-keeps ws r p)
        ]
