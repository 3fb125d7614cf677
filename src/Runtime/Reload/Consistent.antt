-- ===== src/Runtime/Reload/Consistent.antt =====
-- A reload either leaves the registry and the engine as they were or makes them agree.
use mathlib.Core.Path.{subst}
use auxitalk.Base.{
  List, [], ◌∷◌, Option, none, Error, ◌≡◌, ◌≢◌, ◌⊎◌, refl, sym, inl, inr, Option-cases, arith, ap,
}
use auxitalk.Base.Map.{lookup}
use auxitalk.Base.Map.Range.{IsOrder}
use auxitalk.Types.Workflow.{Workflow}
use auxitalk.Workflows.Registry.{Registry, new_registry, register, registry_rules}
use auxitalk.Workflows.Registry.Valid.{IsRegistry, register-IsRegistry, registry_rules-AreRules}
use auxitalk.Workflows.Engine.{Engine}
use auxitalk.Workflows.Engine.Requests.{set_rules_valid}
use auxitalk.Runtime.Deps.{Runtime}
use auxitalk.Runtime.Reload.{register_each, store_workflows, install, reload_workflows}

pub register_each-IsRegistry :
    (ws : List Workflow) (reg : Registry) → IsRegistry reg → IsRegistry (register_each ws reg).0
unfolding register_each
register_each-IsRegistry [] reg h = h
register_each-IsRegistry (w ∷ ws) reg h = elim (Option-cases (register w reg).1) [
  | inr (e, p) ↦ rw (p, register_each) (register-IsRegistry w reg h)
  | inl p ↦
      rw (p, register_each)
        (register_each-IsRegistry ws (register w reg).0 (register-IsRegistry w reg h))
]

store_workflows-keeps :
    (ws : List Workflow) (r : Runtime)
    → ((store_workflows ws r).0.registry ≡ r.registry)
      × ((store_workflows ws r).0.engine ≡ r.engine)
unfolding store_workflows
store_workflows-keeps ws r = ground arith

pub empty-IsRegistry : IsRegistry new_registry
unfolding lookup
empty-IsRegistry = record { is_map = tt; valid = λ k w p. absurd cc }

-- Of the state after a reload: the registry holds valid workflows only, and the engine has the
-- rules of the enabled ones.
pub record Agrees (order : Registry → Registry) (s : Runtime) : Type 0 where
  pub registry : IsRegistry s.registry
  pub rules : s.engine.rules ≡ registry_rules order s.registry

pub installed :
    (order : Registry → Registry) (reg : Registry) (r : Runtime)
    → IsOrder order
    → IsRegistry reg
    → install order reg r ≡ (
      record r { registry = reg; engine = record (r.engine) { rules = registry_rules order reg } },
      none,
    )
unfolding install
installed order reg r o h =
    ap (λ (p : Engine × Option Error). (record r { registry = reg; engine = p.0 }, p.1))
      (set_rules_valid (registry_rules order reg) r.engine (registry_rules-AreRules order reg o h))

-- A reload that fails leaves the registry and the engine as they were; one that succeeds leaves a
-- registry of valid workflows and an engine with exactly the rules of the enabled ones.
pub reload_workflows-Agrees :
    (order : Registry → Registry) (ws : List Workflow) (r : Runtime)
    → IsOrder order
    → (((reload_workflows order ws r).1 ≢ none)
        × ((reload_workflows order ws r).0.registry ≡ r.registry)
        × ((reload_workflows order ws r).0.engine ≡ r.engine))
      ⊎ (((reload_workflows order ws r).1 ≡ none) × Agrees order (reload_workflows order ws r).0)
unfolding reload_workflows
reload_workflows-Agrees order ws r o = elim (Option-cases (register_each ws new_registry).1) [
  | inr (e, p) ↦ rw (p, reload_workflows) (inl ((λ q. cc), refl, refl))
  | inl p ↦ elim (Option-cases (store_workflows ws r).1) [
    | inr (e, f) ↦
        let k = store_workflows-keeps ws r in
        rw (p, f, reload_workflows) (inl ((λ q. cc), k.0, k.1))
    | inl f ↦
        let reg : Registry = (register_each ws new_registry).0 in
        let v : IsRegistry reg = register_each-IsRegistry ws new_registry empty-IsRegistry in
        let e = installed order reg (store_workflows ws r).0 o v in
        rw (p, f, reload_workflows)
          (inr (
            ap (λ x. x.1) e,
            subst (λ (x : Runtime × Option Error). Agrees order x.0) (sym e)
                (record { registry = v; rules = refl }),
          ))
  ]
]
