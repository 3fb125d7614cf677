-- ===== src/Runtime/Restore/Consistent.antt =====
-- The runtime starts with an engine that agrees with the registry.
use auxitalk.Base.{
  List, [], ◌∷◌, Option, none, some, Error, Result, ok, err, ◌≡◌, refl, ap, pos, ◌==◌, string_eq,
  if-elim,
}
use auxitalk.Base.Map.Range.{IsOrder}
use auxitalk.Types.Event.{Event}
use auxitalk.Types.Workflow.{Workflow}
use auxitalk.Events.Bus
use auxitalk.Actions.Store
use auxitalk.Sessions
use auxitalk.Workflows.Registry.{Registry, new_registry, register, registry_rules}
use auxitalk.Workflows.Registry.Valid.{IsRegistry, register-IsRegistry, registry_rules-AreRules}
use auxitalk.Workflows.Engine.Requests.{set_rules_valid}
use auxitalk.Storage.{Storage}
use auxitalk.Storage.Read.{list_events, list_workflows}
use auxitalk.Config.{Config}
use auxitalk.Runtime.Deps.{Runtime}
use auxitalk.Runtime.Reload.Consistent.{Agrees, empty-IsRegistry}
use auxitalk.Runtime.Restore.{
  register_all, with_engine, new_runtime, Queries, load_tables, load_stored, ten_times, listed,
  save_workflows, restore, open_storage, restore_events,
}

register_all-IsRegistry :
    (ws : List Workflow) (reg : Registry) → IsRegistry reg → IsRegistry (register_all ws reg)
unfolding register_all
register_all-IsRegistry [] reg h = h
register_all-IsRegistry (w ∷ ws) reg h =
    register_all-IsRegistry ws (register w reg).0 (register-IsRegistry w reg h)

restore_events-IsRegistry :
    (l : Result (List Event)) (r : Runtime)
    → IsRegistry r.registry
    → IsRegistry (restore_events l r).registry
unfolding restore_events
restore_events-IsRegistry (err e) r h = h
restore_events-IsRegistry (ok l) r h = h

load_stored-IsRegistry :
    (q : Queries) (order : Registry → Registry) (c : Config) (st : Storage) (r : Runtime)
    → IsRegistry r.registry
    → IsRegistry (load_stored q order c st r).registry
unfolding load_stored load_tables
load_stored-IsRegistry q order c st r h =
    restore_events-IsRegistry
      (list_events q.events (ten_times c.runtime.max_events_per_second)
        (save_workflows c.workflows st))
      (load_tables q order c st r)
      (register_all-IsRegistry c.workflows
        (register_all (listed (list_workflows q.workflows st)) r.registry)
        (register_all-IsRegistry (listed (list_workflows q.workflows st)) r.registry h))

restore-Agrees :
    (q : Queries) (order : Registry → Registry) (c : Config) (st : Storage) (r : Runtime)
    → IsOrder order
    → IsRegistry r.registry
    → Agrees order (restore q order c st r)
unfolding restore
restore-Agrees q order c st r o h =
    let r' = load_stored q order c st r in
    let reg_ok = load_stored-IsRegistry q order c st r h in
    record {
      registry = reg_ok;
      rules =
          ap (λ x. x.0.rules)
            (set_rules_valid (registry_rules order r'.registry) r'.engine
              (registry_rules-AreRules order r'.registry o reg_ok));
    }

-- Whatever the configuration and whatever the database holds, New makes a runtime, and before and
-- after openStorage, also if it fails, its registry holds valid workflows only and its engine has
-- exactly the rules of the enabled ones.
pub start-Agrees :
    (q : Queries) (order : Registry → Registry) (c : Config) (opened : Result Storage)
    → IsOrder order
    → (r : Runtime) × (new_runtime order c ≡ some r)
      × Agrees order r
      × Agrees order (open_storage q order c opened r).0
unfolding new_runtime open_storage
start-Agrees q order c opened o =
    let reg = register_all c.workflows new_registry in
    let reg_ok = register_all-IsRegistry c.workflows new_registry empty-IsRegistry in
    let e =
      set_rules_valid (registry_rules order reg) (record { rules = []; id_seq = 0 })
        (registry_rules-AreRules order reg o reg_ok) in
    let r : Runtime = record {
      mode = c.mode;
      bus = Bus.new c.runtime.request_timeout (pos 1000);
      actions = Store.new;
      registry = reg;
      engine = record { rules = registry_rules order reg; id_seq = 0 };
      sessions = Sessions.new_manager;
      storage = none;
      reads = 0;
      running = [];
    } in
    let first : Agrees order r = record { registry = reg_ok; rules = refl } in
    (r, ap (with_engine c reg) e, first, opened_Agrees r first)
  where
    opened_Agrees :
        (r : Runtime) → Agrees order r → Agrees order (open_storage q order c opened r).0
    opened_Agrees r h =
        if-elim {A = Runtime × Option Error} (λ x. Agrees order x.0) (c.sqlite_path == "") (λ _. h)
          (λ _.
            elim opened
              as (λ d.
                let y : Runtime × Option Error = elim d [
                  | err e ↦ (r, some e)
                  | ok st ↦ (restore q order c st r, none)
                ] in
                Agrees order y.0) [
                  | err e ↦ h
                  | ok st ↦ restore-Agrees q order c st r o h.registry
                ])
