-- ===== src/Runtime/System/Consistent.antt =====
-- The engine's rules are those of the registry as long as the daemon runs.
use mathlib.Core.Path.{subst}
use auxitalk.Base.{
  ℕ, ℤ, String, List, [], ◌∷◌, ◌++◌, Option, some, Error, Result, ok, err, ◌≡◌, refl, sym, ap, ◌∙◌,
}
use auxitalk.Base.Map.Range.{IsOrder}
use auxitalk.Types.Value.{Value}
use auxitalk.Types.Event.{Event, Time}
use auxitalk.Types.Action.{ActionRequest, allowed}
use auxitalk.Types.Workflow.{Workflow}
use auxitalk.Actions.Store.{Store, update_status}
use auxitalk.Config.{Config}
use auxitalk.Workflows.Registry.{Registry, new_registry, registry_rules}
use auxitalk.Workflows.Registry.Valid.{IsRegistry}
use auxitalk.Runtime.Deps.{Runtime, Handler, execute_async}
use auxitalk.Runtime.Publish.{Publisher}
use auxitalk.Runtime.Publish.Closed.{IsClosed, status-keeps}
use auxitalk.Runtime.Mutations.{approve_action, approve_updated}
use auxitalk.Runtime.Mutations.Kept.{persist-keeps}
use auxitalk.Runtime.Reload.{install, register_each}
use auxitalk.Runtime.Reload.Consistent.{
  Agrees, installed, register_each-IsRegistry, empty-IsRegistry,
}
use auxitalk.Runtime.Restore.{new_runtime, open_storage}
use auxitalk.Runtime.Restore.Consistent.{start-Agrees}
use auxitalk.Runtime.System.{Daemon, Input, publish, steps}
use auxitalk.Runtime.System.Boot.{Begins, boot}
use auxitalk.Runtime.System.Kept.{IsTracked}
use auxitalk.Runtime.System.Begun.{Holds, daemon-kept}
use auxitalk.Runtime.System.Whole.{open_storage-IsFresh, new_runtime-IsFresh}

module _ (mode : String) (order : Registry → Registry) where
  -- The mode is the same, and the registry and the engine agree.
  record Settled (ids : List String) (r : Runtime) : Type 0 where
    mode_same : r.mode ≡ mode
    agrees : Agrees order r

  same-Settled :
      (ids jds : List String) (r s : Runtime)
      → s.mode ≡ r.mode
      → s.registry ≡ r.registry
      → s.engine.rules ≡ r.engine.rules
      → Settled ids r
      → Settled jds s
  same-Settled ids jds r s m g u p = record {
    mode_same = m ∙ p.mode_same;
    agrees = record {
      registry = subst IsRegistry (sym g) p.agrees.registry;
      rules = u ∙ p.agrees.rules ∙ ap (registry_rules order) (sym g);
    };
  }

  Settled-IsClosed : (ids : List String) → IsClosed mode (Settled ids)
  unfolding execute_async
  Settled-IsClosed ids = record {
    mode_same = λ r p. p.mode_same;
    framed = λ r s m a n g u p. same-Settled ids ids r s m g u p;
    saved = λ a r p. same-Settled ids ids r _ refl refl refl p;
    changed = λ id status r p. same-Settled ids ids r _ refl refl refl p;
    started = λ a r h p. same-Settled ids ids r _ refl refl refl p;
  }

  module _ (time_at : ℕ → Time) (publish : Publisher)
      (keeps : (ids : List String) (e : Event) (r : Runtime)
        → Settled ids r
        → Settled ids (publish e r).0) where
    approved-Settled :
        (id : String) (ids : List String) (r : Runtime) (x : Store × Result ActionRequest)
        → Settled ids r
        → Settled (ids ++ id ∷ []) (approve_updated time_at publish x r).0
    unfolding approve_updated execute_async
    approved-Settled id ids r (s, err e) p = same-Settled ids _ r _ refl refl refl p
    approved-Settled id ids r (s, ok a) p =
        let c = Settled-IsClosed ids in
        let q = same-Settled ids ids r (record r { actions = s }) refl refl refl p in
        same-Settled ids _ _ _ refl refl refl (
          status-keeps time_at mode (Settled ids) c publish (keeps ids) "action.approved" a _
            (persist-keeps time_at mode (Settled ids) c publish (keeps ids) a _ q))

  module _ (o : IsOrder order) where
    Settled-IsTracked : (time_at : ℕ → Time) → IsTracked mode Settled time_at order
    unfolding approve_action
    Settled-IsTracked time_at = record {
      closed = Settled-IsClosed;
      approves = λ publish keeps id ids r p.
          approved-Settled time_at publish keeps id ids r (update_status id allowed r.actions) p;
      installs = λ ids ws r p. installed-Settled ids ws r p;
    }
      where
        installed-Settled :
            (ids : List String) (ws : List Workflow) (r : Runtime)
            → Settled ids r
            → Settled ids (install order (register_each ws new_registry).0 r).0
        installed-Settled ids ws r p =
            let v = register_each-IsRegistry ws new_registry empty-IsRegistry in
            subst (λ (x : Runtime × Option Error). Settled ids x.0)
              (sym (installed order (register_each ws new_registry).0 r o v))
              (record { mode_same = p.mode_same; agrees = record { registry = v; rules = refl } })

module _ (number : ℤ → Value) (time_at : ℕ → Time)
    (order wild_order : List (ℕ × Handler) → List (ℕ × Handler)) (nesting : ℕ)
    (listing rules_order : Registry → Registry) (o : IsOrder rules_order) (b : Begins)
    (c : Config) where
  begins-Settled :
      (r : Runtime)
      → new_runtime rules_order c ≡ some r
      → Settled c.mode rules_order [] (open_storage b.queries rules_order c b.opened r).0
  begins-Settled r e =
      let (r', e', first, opened) = start-Agrees b.queries rules_order c b.opened o in
      record {
        mode_same =
            (open_storage-IsFresh c.mode b.queries rules_order c b.opened r
              (new_runtime-IsFresh rules_order c r e)).mode_same;
        agrees =
            subst
              (Holds (λ x. Agrees rules_order (open_storage b.queries rules_order c b.opened x).0))
              (sym e' ∙ e) opened;
      }

  -- From its start on, whatever the database holds and whatever reaches the daemon, the registry
  -- holds valid workflows only, and the engine's rules are exactly those of the enabled ones, in
  -- the order that EnabledRules gives. `rules_order` is the order of the iterations over the
  -- registry's map.
  pub daemon-Agrees :
      (d : Daemon) (is : List Input)
      → boot number time_at
          (publish number time_at order wild_order nesting listing rules_order)
          rules_order
          b
          c
        ≡ some (ok d)
      → Agrees rules_order
          (steps number time_at order wild_order nesting listing rules_order is
            d).configured.host.runtime
  daemon-Agrees d is e =
      (daemon-kept c.mode (Settled c.mode rules_order) number time_at order wild_order nesting
        listing rules_order (Settled-IsTracked c.mode rules_order o time_at) b c begins-Settled d is
        e).agrees
