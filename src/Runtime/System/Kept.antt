-- ===== src/Runtime/System/Kept.antt =====
-- What a step of the daemon keeps: a predicate on the approvals so far and the runtime.
use mathlib.Core.Path.{subst}
use mathlib.Core.List.{append-nil, append_assoc}
use auxitalk.Control.Service.{RuntimeApi}
use auxitalk.Base.{true, false, Error, ℕ, ℤ, String, List, [], ◌∷◌, ◌++◌, Option, sym, string_eq}
use auxitalk.Types.Value.{Value}
use auxitalk.Types.Event.{Event, Time}
use auxitalk.Types.Action.{ActionRequest}
use auxitalk.Types.Execution.{ActionExecution}
use auxitalk.Workflows.Executor.{MockExecutor}
use auxitalk.Control.Approvals.Logged.{IsLogged, serve-logged}
use auxitalk.Types.Workflow.{Workflow}
use auxitalk.Workflows.Registry.{Registry, new_registry}
use auxitalk.Runtime.Reload.{install, register_each}
use auxitalk.Runtime.Deps.{Runtime, Handler}
use auxitalk.Runtime.Publish.{Publisher}
use auxitalk.Runtime.Publish.Closed.{IsClosed, publish-keeps}
use auxitalk.Runtime.Mutations.{approve_action}
use auxitalk.Runtime.Mutations.Kept.{deny-keeps, complete-keeps}
use auxitalk.Runtime.Reload.Kept.{reload-keeps, switch-keeps}
use auxitalk.Runtime.Host.{Host}
use auxitalk.Runtime.Host.Kept.{report-keeps, health-keeps, emit-keeps, plugin_request-keeps}
use auxitalk.Runtime.Host.Moved.{configure-keeps, load_plugins-keeps, stop_plugins-keeps}
use auxitalk.Runtime.Host.Fallback.{execute_and_complete, run_action}
use auxitalk.Runtime.Host.Configure.{Configured, api}
use auxitalk.Runtime.System.{
  Daemon, RunMeets, Meets, Input, asked, plugin_asked, ran, reported, checked, loaded, shut_down,
  approval_of, approvals_of, steps, publish, pause, ask, step,
}

-- A predicate that the runtime keeps beside approvals and new workflows, and that these keep too, an
-- approval with its id added.
pub record IsTracked (mode : String) (P : List String → Runtime → Type 0) (time_at : ℕ → Time)
    (rules_order : Registry → Registry) : Type 0 where
  pub closed : (ids : List String) → IsClosed mode (P ids)
  pub approves :
      (publish : Publisher)
      → ((ids : List String) (e : Event) (r : Runtime) → P ids r → P ids (publish e r).0)
      → (id : String) (ids : List String) (r : Runtime) → P ids r
      → P (ids ++ id ∷ []) (approve_action time_at publish id r).0
  pub installs :
      (ids : List String) (ws : List Workflow) (r : Runtime)
      → P ids r
      → P ids (install rules_order (register_each ws new_registry).0 r).0

module _ (mode : String) (P : List String → Runtime → Type 0) where
  module _ (number : ℤ → Value) (time_at : ℕ → Time)
      (order wild_order : List (ℕ × Handler) → List (ℕ × Handler)) (nesting : ℕ)
      (listing rules_order : Registry → Registry) (c : IsTracked mode P time_at rules_order) where
    abbrev here : Publisher
    here = publish number time_at order wild_order nesting listing rules_order

    pub publish-kept : (ids : List String) (e : Event) (r : Runtime) → P ids r → P ids (here e r).0
    publish-kept ids = publish-keeps time_at mode (P ids) (c.closed ids) order wild_order nesting

    pause-kept :
        (m : Meets) (ids : List String) (h : Host)
        → P ids h.runtime
        → P ids (pause number time_at order wild_order nesting listing rules_order m h).runtime
    unfolding pause
    pause-kept m ids h p =
        report-keeps time_at mode (P ids) (c.closed ids) here (publish-kept ids) number m.paused
          h.runtime p

    abbrev here_api : Meets → RuntimeApi Configured
    here_api m =
        api number time_at here listing rules_order m.load m.spawned m.stopped m.started
          (pause number time_at order wild_order nesting listing rules_order m) m.read_log

    api-IsLogged : (m : Meets) → IsLogged (here_api m) (λ ids x. P ids x.host.runtime)
    unfolding api
    api-IsLogged m = record {
      approve = λ id ids x p. c.approves here publish-kept id ids x.host.runtime p;
      deny = λ id ids x p.
          deny-keeps time_at mode (P ids) (c.closed ids) here (publish-kept ids) id x.host.runtime
            p;
      reload = λ ws ids x p.
          reload-keeps mode (P ids) (c.closed ids) rules_order (c.installs ids) ws x.host.runtime p;
      enable = λ id ids x p.
          switch-keeps mode (P ids) (c.closed ids) rules_order (c.installs ids) listing id true
            x.host.runtime p;
      disable = λ id ids x p.
          switch-keeps mode (P ids) (c.closed ids) rules_order (c.installs ids) listing id false
            x.host.runtime p;
      emit = λ e ids x p.
          emit-keeps time_at mode (P ids) (c.closed ids) here (publish-kept ids) e x.host.runtime p;
      configure = λ id on env ids x p.
          configure-keeps time_at mode (P ids) (c.closed ids) here (publish-kept ids) number m.load
            m.spawned m.stopped m.started
            (pause number time_at order wild_order nesting listing rules_order m) id on env x
            (pause-kept m ids) p;
    }

    alone : (ids : List String) (r : Runtime) → P ids r → P (ids ++ []) r
    alone ids r = subst (λ k. P k r) (sym (append-nil ids))

    abbrev run :
        RunMeets → ActionRequest → Daemon → Option MockExecutor × (ActionExecution × Option Error)
    run m a d =
        run_action m.decode m.invoke m.expiry m.time m.stamp m.created m.ended a d.executor
          d.configured.host.router

    pub step-kept :
        (i : Input) (ids : List String) (d : Daemon)
        → P ids d.configured.host.runtime
        → P
            (ids ++ approval_of i)
            (step number time_at order wild_order nesting listing rules_order i
              d).configured.host.runtime
    unfolding step ask approval_of execute_and_complete
    step-kept (asked m r) ids d p =
        serve-logged (here_api m) (λ ids x. P ids x.host.runtime) (api-IsLogged m) r ids
          d.configured p
    step-kept (plugin_asked t q) ids d p = alone ids _ (
        plugin_request-keeps time_at mode (P ids) (c.closed ids) here (publish-kept ids) number t q
          d.configured.host p)
    step-kept (ran m a) ids d p = alone ids _ (
        complete-keeps time_at mode (P ids) (c.closed ids) here (publish-kept ids) a (run m a d).1.0
          (run m a d).1.1 d.configured.host.runtime p)
    step-kept (reported ss) ids d p = alone ids _ (
        report-keeps time_at mode (P ids) (c.closed ids) here (publish-kept ids) number ss
          d.configured.host.runtime p)
    step-kept (checked id e) ids d p = alone ids _ (
        health-keeps time_at mode (P ids) (c.closed ids) here (publish-kept ids) number id e
          d.failures d.configured.host.runtime p)
    step-kept (loaded m t ps) ids d p = alone ids _ (
        load_plugins-keeps time_at mode (P ids) (c.closed ids) here (publish-kept ids) number m t ps
          d.configured.host p)
    step-kept (shut_down m t ks) ids d p = alone ids _ (
        stop_plugins-keeps time_at mode (P ids) (c.closed ids) here (publish-kept ids) number m t ks
          d.configured.host p)

    pub steps-kept :
        (is : List Input) (ids : List String) (d : Daemon)
        → P ids d.configured.host.runtime
        → P
            (ids ++ approvals_of is)
            (steps number time_at order wild_order nesting listing rules_order is
              d).configured.host.runtime
    unfolding steps approvals_of
    steps-kept [] ids d p = rw (append-nil ids) p
    steps-kept (i ∷ is) ids d p =
        rw⁻¹ (append_assoc ids (approval_of i) (approvals_of is))
          (steps-kept is (ids ++ approval_of i) _ (step-kept i ids d p))
