-- ===== src/Runtime/Publish/Closed.antt =====
-- What publishing keeps: a predicate on the runtime that its own steps keep.
use mathlib.Core.Path.{subst}
use auxitalk.Base.{
  ap, ℕ, zero, suc, String, List, none, ◌≡◌, refl, ◌⊎◌, inl, inr, arith, ◌==◌, string_eq, eq_iff,
  Option-cases, Bool-cases,
}
use auxitalk.Types.Event.{Event, Time}
use auxitalk.Types.Action.{ActionRequest, low, allowed, is_status}
use auxitalk.Types.Action
use auxitalk.Actions.Gate.{decide, mode_dev, mode_local}
use auxitalk.Actions.Gate.Policy.{decide-allowed_iff}
use auxitalk.Actions.Store.{save, update_status}
use auxitalk.Events.Bus.Delivery.{publish_keeps}
use auxitalk.Workflows.Engine.Keeps.{handle_event_keeps}
use auxitalk.Runtime.Deps.{
  Runtime, Handler, persistence, workflow, tracking, now, persist_action, execute_async,
}
use auxitalk.Runtime.Deps.Frame.{
  SameCore, persist_action-SameCore, handle_persistence-SameCore, handle_tracking-SameCore,
  fill_defaults-SameCore,
}
use auxitalk.Runtime.Publish.{
  Publisher, publish_action_status, accept_action, gate_action, request_action, handle_workflow,
  run_handler, publish_at, session_at,
}

-- A valid action with the status allowed, in a mode that allows it without the user.
pub record IsPermitted (mode : String) (a : ActionRequest) : Type 0 where
  pub status : a.status ≡ allowed
  pub valid : Action.validate a ≡ none
  pub by_mode : (mode ≡ mode_dev) ⊎ ((mode ≡ mode_local) × (a.risk ≡ low))

allowed-valid :
    (a : ActionRequest)
    → Action.validate a ≡ none
    → Action.validate (record a { status = allowed }) ≡ none
unfolding Action.validate is_status
allowed-valid a h = ground arith

decide-IsPermitted :
    (mode : String) (a : ActionRequest)
    → (decide mode a).0 ≡ allowed
    → IsPermitted mode (record a { status = (decide mode a).0 })
decide-IsPermitted mode a p =
    let why = (decide-allowed_iff mode a).0 p in
    rw p (record { status = refl; valid = allowed-valid a why.0; by_mode = why.1 })

pub decide-IsPermitted_at :
    (mode m : String) (a : ActionRequest)
    → m ≡ mode
    → (decide m a).0 ≡ allowed
    → IsPermitted mode (record a { status = (decide m a).0 })
decide-IsPermitted_at mode m a e s =
    subst (λ n. IsPermitted n (record a { status = (decide m a).0 })) e (decide-IsPermitted m a s)

-- A predicate that depends on the mode, the stored actions, the actions under way, the registry and
-- the engine's rules only, and that
-- saving an action, changing a status and starting a permitted action keep.
pub record IsClosed (mode : String) (P : Runtime → Type 0) : Type 0 where
  pub mode_same : (r : Runtime) → P r → r.mode ≡ mode
  pub framed :
      (r s : Runtime)
      → s.mode ≡ r.mode
      → s.actions ≡ r.actions
      → s.running ≡ r.running
      → s.registry ≡ r.registry
      → s.engine.rules ≡ r.engine.rules
      → P r
      → P s
  pub saved : (a : ActionRequest) (r : Runtime) → P r → P (record r { actions = save a r.actions })
  pub changed :
      (id status : String) (r : Runtime)
      → P r
      → P (record r { actions = (update_status id status r.actions).0 })
  pub started : (a : ActionRequest) (r : Runtime) → IsPermitted mode a → P r → P (execute_async a r)

module _ (time_at : ℕ → Time) (mode : String) (P : Runtime → Type 0) (c : IsClosed mode P) where
  pub SameCore-keeps : (r s : Runtime) → SameCore r s → P r → P s
  SameCore-keeps r s k =
      c.framed r s k.mode k.actions k.running k.registry (ap (λ x. x.rules) k.engine)

  module _ (publish : Publisher) (keeps : (e : Event) (r : Runtime) → P r → P (publish e r).0) where
    pub status-keeps :
        (event_type : String) (a : ActionRequest) (r : Runtime)
        → P r
        → P (publish_action_status time_at publish event_type a r)
    unfolding publish_action_status now
    status-keeps event_type a r p = keeps _ _ (c.framed r _ refl refl refl refl refl p)

    accept-keeps :
        (a : ActionRequest) (r : Runtime)
        → (a.status ≡ allowed → IsPermitted mode a)
        → P r
        → P (accept_action time_at publish a r)
    unfolding accept_action
    accept-keeps a r h p = elim (Bool-cases (a.status == allowed)) [
      | inl y ↦ rw y (c.started a _ (h ((eq_iff a.status allowed).0 y)) published)
      | inr n ↦ rw n published
    ]
      where
        saved : Runtime
        saved = record r { actions = save a r.actions }

        published :
            P (publish_action_status time_at publish "action.requested" a (persist_action a saved))
        published =
            status-keeps "action.requested" a _
              (SameCore-keeps _ _ (persist_action-SameCore a saved) (c.saved a r p))

    gate-keeps : (a : ActionRequest) (r : Runtime) → P r → P (gate_action time_at publish a r).0
    unfolding gate_action
    gate-keeps a r p = elim (Option-cases (decide r.mode a).1) [
      | inl n ↦ rw (n, gate_action) accepted
      | inr (x, e) ↦ elim (Bool-cases ((decide r.mode a).0 == "")) [
        | inl refused ↦ rw (e, gate_action, refused) p
        | inr kept ↦ rw (e, gate_action, kept) accepted
      ]
    ]
      where
        accepted : P (accept_action time_at publish (record a { status = (decide r.mode a).0 }) r)
        accepted = accept-keeps _ r (decide-IsPermitted_at mode r.mode a (c.mode_same r p)) p

    request-keeps :
        (a : ActionRequest) (r : Runtime) → P r → P (request_action time_at publish a r).0
    unfolding request_action
    request-keeps a r p =
        gate-keeps _ _
          (SameCore-keeps _ _ (fill_defaults-SameCore time_at "workflow" "workflow-action-" a r) p)

    workflow-keeps : (e : Event) (r : Runtime) → P r → P (handle_workflow time_at publish e r).0
    unfolding handle_workflow now
    workflow-keeps e r p =
        handle_event_keeps (λ x. x.engine) (λ x s. record s { engine = x }) (now time_at) session_at
          (request_action time_at publish) P (λ x s u q. c.framed s _ refl refl refl refl u q)
          (λ s q. c.framed s _ refl refl refl refl refl q) request-keeps e r p

    run-keeps :
        (h : Handler) (e : Event) (r : Runtime) → P r → P (run_handler time_at publish h e r).0
    unfolding run_handler
    run-keeps persistence e r p = SameCore-keeps _ _ (handle_persistence-SameCore e r) p
    run-keeps workflow e r p = workflow-keeps e r p
    run-keeps tracking e r p = SameCore-keeps _ _ (handle_tracking-SameCore time_at e r) p

  module _ (order wild_order : List (ℕ × Handler) → List (ℕ × Handler)) where
    pub publish-keeps :
        (nesting : ℕ) (e : Event) (r : Runtime)
        → P r
        → P (publish_at time_at order wild_order nesting e r).0
    unfolding publish_at
    publish-keeps zero e r p = p
    publish-keeps (suc nesting) e r p =
        publish_keeps (λ x. x.bus) (λ b x. record x { bus = b })
          (run_handler time_at (publish_at time_at order wild_order nesting)) order wild_order P e
          (λ h s q.
            run-keeps (publish_at time_at order wild_order nesting) (publish-keeps nesting) h e s q)
          (λ b s q. c.framed s _ refl refl refl refl refl q) r p
