-- ===== src/Runtime/Publish/Still.antt =====
-- Events to which no workflow reacts.
use mathlib.Core.Path.{subst}
use auxitalk.Base.{
  ℕ, zero, suc, String, List, [], ◌∷◌, Option, none, some, Error, ◌≡◌, ◌≢◌, refl, sym, ap, ◌∙◌,
  arith, All, inl, inr, false, string_eq, eq_iff, Option-cases,
}
use auxitalk.Types.Event.{Event, Time}
use auxitalk.Types.Event
use auxitalk.Types.Action.{ActionRequest}
use auxitalk.Types.Session.{Session}
use auxitalk.Types.Workflow.{WorkflowRule, matches}
use auxitalk.Storage.{Storage, save_event, save_session}
use auxitalk.Events.Bus.Delivery.{publish_keeps}
use auxitalk.Workflows.Engine.{Engine, handle_event, handle_rules, session_of}
use auxitalk.Runtime.Deps.{
  Runtime, Handler, persistence, workflow, tracking, now, handle_persistence, handle_tracking,
  store_session,
}
use auxitalk.Runtime.Publish.{
  Publisher, publish_action_status, request_action, handle_workflow, run_handler, publish_at,
  session_at, status_event,
}

-- No rule has the type of the event as its trigger, nor all types.
abbrev pub IsUnheard : String → List WorkflowRule → Type 0
IsUnheard type rules = All (λ r. (r.trigger.event_type ≢ type) × (r.trigger.event_type ≢ "*")) rules

-- the table of actions, if the database is open
abbrev pub rows_of : Option Storage → Option (List (String × ActionRequest))
rows_of none = none
rows_of (some st) = some st.actions

-- The actions, their table, the actions under way and the engine's rules are those of before.
pub record Still (r s : Runtime) : Type 0 where
  pub actions : s.actions ≡ r.actions
  pub running : s.running ≡ r.running
  pub rows : rows_of s.storage ≡ rows_of r.storage
  pub rules : s.engine.rules ≡ r.engine.rules

pub Still-trans : (r s t : Runtime) → Still r s → Still s t → Still r t
Still-trans r s t p q = record {
  actions = q.actions ∙ p.actions;
  running = q.running ∙ p.running;
  rows = q.rows ∙ p.rows;
  rules = q.rules ∙ p.rules;
}

unheard-matches :
    (rule : WorkflowRule) (e : Event) (session : Session)
    → rule.trigger.event_type ≢ e.type
    → rule.trigger.event_type ≢ "*"
    → matches rule e session ≡ false
unfolding matches
unheard-matches rule e session h k =
    ground (arith, eq_iff rule.trigger.event_type e.type, eq_iff rule.trigger.event_type "*", h, k)

module _ {S : Type 0} (engine : S → Engine) (set_engine : Engine → S → S) (clock : S → S × Time)
    (resolve : String → S → Option Session) (sink : ActionRequest → S → S × Option Error) where
  unheard-handle_rules :
      (rules : List WorkflowRule) (e : Event) (session : Session) (s : S)
      → IsUnheard e.type rules
      → handle_rules engine set_engine clock resolve sink rules e session [] s ≡ (s, ([], none))
  unfolding handle_rules
  unheard-handle_rules [] e session s h = refl
  unheard-handle_rules (rule ∷ rules) e session s h =
      rw (handle_rules, unheard-matches rule e session h.0.0 h.0.1)
        (unheard-handle_rules rules e session s h.1)

  unheard-handle_event :
      (e : Event) (s : S)
      → IsUnheard e.type (engine s).rules
      → (handle_event engine set_engine clock resolve sink e s).0 ≡ s
  unfolding handle_event
  unheard-handle_event e s h = elim (Option-cases (Event.validate e)) [
    | inr (x, bad) ↦ rw (bad, handle_event) refl
    | inl good ↦
        rw (good, handle_event)
          (ap (λ p. p.0)
            (unheard-handle_rules (engine s).rules e
              (session_of engine set_engine clock resolve sink e s) s h))
  ]

persistence-Still : (e : Event) (r : Runtime) → Still r (handle_persistence e r).0
unfolding handle_persistence save_event
persistence-Still e r = ground arith

module _ (time_at : ℕ → Time) where
  tracking-Still : (e : Event) (r : Runtime) → Still r (handle_tracking time_at e r).0
  unfolding handle_tracking store_session save_session
  tracking-Still e r = ground arith

  run-Still :
      (publish : Publisher) (h : Handler) (e : Event) (r s : Runtime)
      → IsUnheard e.type r.engine.rules
      → Still r s
      → Still r (run_handler time_at publish h e s).0
  unfolding run_handler handle_workflow
  run-Still publish persistence e r s h p = Still-trans r s _ p (persistence-Still e s)
  run-Still publish tracking e r s h p = Still-trans r s _ p (tracking-Still e s)
  run-Still publish workflow e r s h p =
      subst (Still r)
        (sym (
          unheard-handle_event (λ x. x.engine) (λ x t. record t { engine = x }) (now time_at)
            session_at (request_action time_at publish) e s
            (subst (IsUnheard e.type) (sym p.rules) h)))
        p

  module _ (order wild_order : List (ℕ × Handler) → List (ℕ × Handler)) where
    -- An event to which no rule reacts leaves the actions, their table and the actions under way
    -- alone, however deeply events may nest.
    pub publish_at-Still :
        (nesting : ℕ) (e : Event) (r : Runtime)
        → IsUnheard e.type r.engine.rules
        → Still r (publish_at time_at order wild_order nesting e r).0
    unfolding publish_at
    publish_at-Still zero e r h = record {
      actions = refl;
      running = refl;
      rows = refl;
      rules = refl;
    }
    publish_at-Still (suc nesting) e r h =
        publish_keeps (λ x. x.bus) (λ b x. record x { bus = b })
          (run_handler time_at (publish_at time_at order wild_order nesting)) order wild_order
          (Still r) e (λ k s p. run-Still (publish_at time_at order wild_order nesting) k e r s h p)
          (λ b s p. record {
            actions = p.actions;
            running = p.running;
            rows = p.rows;
            rules = p.rules;
          })
          r (record { actions = refl; running = refl; rows = refl; rules = refl })

    pub status-Still :
        (nesting : ℕ) (t : String) (a : ActionRequest) (r : Runtime)
        → IsUnheard t r.engine.rules
        → Still r
            (publish_action_status time_at (publish_at time_at order wild_order nesting) t a r)
    unfolding publish_action_status now status_event
    status-Still nesting t a r h =
        let p =
          publish_at-Still nesting (status_event t a (time_at r.reads) (time_at (suc r.reads)))
            (record r { reads = suc (suc r.reads) }) h in
        record { actions = p.actions; running = p.running; rows = p.rows; rules = p.rules }
