-- ===== src/Types/Workflow/Distinct.antt =====
-- What Workflow.Validate accepts.
use auxitalk.Base.{
  String, false, List, [], ◌∷◌, none, ◌≡◌, ◌≢◌, ◌↔◌, refl, arith, eq_iff, All, is_blank,
}
use auxitalk.Types.Workflow.{
  Workflow, WorkflowRule, validate_rule, validate_rules, validate, seen_has, is_empty,
}

-- No two rules have the same id.
abbrev pub AreDistinct : List WorkflowRule → Type 0
AreDistinct [] = Unit
AreDistinct (x ∷ rs) = All (λ y. x.id ≢ y.id) rs × AreDistinct rs

abbrev Unseen : List String → List WorkflowRule → Type 0
Unseen seen rs = All (λ x. seen_has x.id seen ≡ false) rs

seen_cons :
    (id : String) (seen : List String) (rs : List WorkflowRule)
    → Unseen (id ∷ seen) rs ↔ (All (λ x. id ≢ x.id) rs × Unseen seen rs)
unfolding seen_has
seen_cons id seen [] = ground arith
seen_cons id seen (x ∷ rs) = ground (arith, eq_iff id x.id, seen_cons id seen rs)

nil-Unseen : (rs : List WorkflowRule) → Unseen [] rs
unfolding seen_has
nil-Unseen [] = tt
nil-Unseen (x ∷ rs) = (refl, nil-Unseen rs)

validate_rules_iff :
    (seen : List String) (rs : List WorkflowRule)
    → (validate_rules seen rs ≡ none)
      ↔ (All (λ x. validate_rule x ≡ none) rs × Unseen seen rs × AreDistinct rs)
unfolding validate_rules
validate_rules_iff seen [] = ground arith
validate_rules_iff seen (x ∷ rs) =
    ground (arith, validate_rules_iff (x.id ∷ seen) rs, seen_cons x.id seen rs)

-- A workflow is valid exactly when its id is not blank, it has a rule, each of its rules is valid,
-- and no two of them have the same id.
pub validate_iff :
    (w : Workflow)
    → (validate w ≡ none) ↔ (
        (is_blank w.id ≡ false)
        × (is_empty w.rules ≡ false)
        × All (λ x. validate_rule x ≡ none) w.rules
        × AreDistinct w.rules)
unfolding validate
validate_iff w = ground (arith, validate_rules_iff [] w.rules, nil-Unseen w.rules)
