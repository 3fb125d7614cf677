-- ===== src/Workflows/Engine/Keeps.antt =====
-- What the engine's surroundings keep, the handling of an event keeps.
use auxitalk.Base.{
  String, List, [], ◌∷◌, ◌++◌, ◌≡◌, refl, Option, Error, inl, inr, Option-cases, Bool-cases,
}
use auxitalk.Types.Event.{Event, Time}
use auxitalk.Types.Event
use auxitalk.Types.Action.{ActionRequest}
use auxitalk.Types.Action
use auxitalk.Types.Session.{Session}
use auxitalk.Types.Workflow.{WorkflowRule, WorkflowAction, get_actions}
use auxitalk.Types.Workflow
use auxitalk.Workflows.Engine.{
  Engine, new_actions, new_actions_loop, session_of, request_all, handle_rules, handle_event,
}

module _ {ℓ} {S : Type 0} (engine : S → Engine) (set_engine : Engine → S → S) (clock : S → S × Time)
    (resolve : String → S → Option Session) (sink : ActionRequest → S → S × Option Error)
    (P : S → Type ℓ)
    (set_keeps : (x : Engine) (s : S) → x.rules ≡ (engine s).rules → P s → P (set_engine x s))
    (clock_keeps : (s : S) → P s → P (clock s).0)
    (sink_keeps : (a : ActionRequest) (s : S) → P s → P (sink a s).0) where
  loop_keeps :
      (rule : WorkflowRule) (e : Event) (session : Session) (as' : List WorkflowAction) (s : S)
      → P s
      → P (new_actions_loop engine set_engine clock resolve sink rule e session as' s).0
  unfolding new_actions_loop
  loop_keeps rule e session [] s p = p
  loop_keeps rule e session (a ∷ as') s p =
      loop_keeps rule e session as' _ (clock_keeps _ (set_keeps _ s refl p))

  request_all_keeps :
      (as' requested : List ActionRequest) (s : S)
      → P s
      → P (request_all engine set_engine clock resolve sink as' requested s).0
  unfolding request_all
  request_all_keeps [] requested s p = p
  request_all_keeps (a ∷ as') requested s p = elim (Option-cases (Action.validate a)) [
    | inr (x, e) ↦ rw (e, request_all) p
    | inl e ↦ elim (Option-cases (sink a s).1) [
      | inr (x, o) ↦ rw (e, request_all, o) (sink_keeps a s p)
      | inl o ↦
          rw (e, request_all, o)
            (request_all_keeps as' (requested ++ a ∷ []) (sink a s).0 (sink_keeps a s p))
    ]
  ]

  -- the state and the progress after one rule that matches
  abbrev after :
      WorkflowRule → Event → List ActionRequest → S → S × (List ActionRequest × Option Error)
  after rule e requested s =
      request_all engine set_engine clock resolve sink
        (new_actions engine set_engine clock resolve sink rule e s).1 requested
        (new_actions engine set_engine clock resolve sink rule e s).0

  after_keeps :
      (rule : WorkflowRule) (e : Event) (requested : List ActionRequest) (s : S)
      → P s
      → P (after rule e requested s).0
  unfolding new_actions
  after_keeps rule e requested s p =
      request_all_keeps _ requested _ (loop_keeps rule e _ (get_actions rule) s p)

  handle_rules_keeps :
      (rules : List WorkflowRule) (e : Event) (session : Session) (requested : List ActionRequest)
      (s : S)
      → P s
      → P (handle_rules engine set_engine clock resolve sink rules e session requested s).0
  unfolding handle_rules
  handle_rules_keeps [] e session requested s p = p
  handle_rules_keeps (rule ∷ rules) e session requested s p =
      elim (Bool-cases (Workflow.matches rule e session)) [
        | inr n ↦ rw (n, handle_rules) (handle_rules_keeps rules e session requested s p)
        | inl m ↦ elim (Option-cases (after rule e requested s).1.1) [
          | inr (x, o) ↦ rw (m, handle_rules, o) (after_keeps rule e requested s p)
          | inl o ↦
              rw (m, handle_rules, o)
                (handle_rules_keeps rules e session (after rule e requested s).1.0
                  (after rule e requested s).0 (after_keeps rule e requested s p))
        ]
      ]

  pub handle_event_keeps :
      (e : Event) (s : S) → P s → P (handle_event engine set_engine clock resolve sink e s).0
  unfolding handle_event
  handle_event_keeps e s p = elim (Option-cases (Event.validate e)) [
    | inr (x, bad) ↦ rw (bad, handle_event) p
    | inl good ↦
        rw (good, handle_event)
          (handle_rules_keeps (engine s).rules e
            (session_of engine set_engine clock resolve sink e s) [] s p)
  ]
