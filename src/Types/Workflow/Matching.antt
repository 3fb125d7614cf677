-- ===== src/Types/Workflow/Matching.antt =====
-- Which events a rule matches, and how the operators of a condition relate.
use auxitalk.Base.{
  String, Bool, true, false, List, [], ◌∷◌, none, ◌≡◌, ◌≢◌, ◌↔◌, ◌⊎◌, refl, arith, eq_iff, All, not,
  Option-cases, inl, inr,
}
use auxitalk.Types.Event.{Event}
use auxitalk.Types.Session.{Session}
use auxitalk.Types.Workflow.{WorkflowRule, matches, all_match}
use auxitalk.Types.Workflow.Condition.{WorkflowCondition, actual_of, compare_by}
use auxitalk.Types.Workflow.Condition

module _ (e : Event) (session : Session) where
  all_match_iff :
      (cs : List WorkflowCondition)
      → (all_match cs e session ≡ true) ↔ All (λ c. Condition.matches c e session ≡ true) cs
  unfolding all_match
  all_match_iff [] = ground arith
  all_match_iff (c ∷ cs) = ground (arith, all_match_iff cs)

  -- A rule matches an event exactly when it is enabled, its type is that of the event or "*", its
  -- source is empty or that of the event, and each of its conditions holds.
  pub matches_iff :
      (r : WorkflowRule)
      → (matches r e session ≡ true) ↔ (
          (r.enabled ≡ true)
          × ((r.trigger.event_type ≡ "*") ⊎ (r.trigger.event_type ≡ e.type))
          × ((r.trigger.source ≡ "") ⊎ (r.trigger.source ≡ e.source))
          × All (λ c. Condition.matches c e session ≡ true) r.trigger.conditions)
  unfolding matches
  matches_iff r = ground (
    arith,
    eq_iff r.trigger.event_type "*",
    eq_iff r.trigger.event_type e.type,
    eq_iff r.trigger.source "",
    eq_iff r.trigger.source e.source,
    all_match_iff r.trigger.conditions,
  )

  abbrev pub holds : String → String → String → Bool
  holds field operator value =
      Condition.matches (record { field = field; operator = operator; value = value }) e session

  -- On a field that is supported, "not_equals" holds exactly where "equals" does not, and
  -- "not_contains" where "contains" does not. On another field no operator holds.
  operators_opposed :
      (field value operator : String)
      → ((actual_of field e session ≢ none)
          × (holds field "not_equals" value ≡ not (holds field "equals" value))
          × (holds field "not_contains" value ≡ not (holds field "contains" value)))
        ⊎ ((actual_of field e session ≡ none) × (holds field operator value ≡ false))
  unfolding Condition.matches compare_by
  operators_opposed field value operator = elim (Option-cases (actual_of field e session)) [
    | inl n ↦ rw (n, Condition.matches) (inr (refl, refl))
    | inr (x, s) ↦ rw (s, Condition.matches) (inl ((λ q. cc), refl, refl))
  ]
