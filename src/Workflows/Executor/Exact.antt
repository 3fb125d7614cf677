-- ===== src/Workflows/Executor/Exact.antt =====
-- When the mock executor runs an action, and what it keeps of the run.
use auxitalk.Base.{
  ◌∙◌, ◌+◌, ◌%◌, ◌^◌, true, false, [], ◌∷◌, ◌++◌, Option, none, Error, ok, err, ◌≡◌, ◌≢◌, ◌⊎◌, refl,
  ap, inl, inr, arith, Option-cases, Bool-cases,
}
use auxitalk.Base.Text.{all_space, is_space, is_blank-concat}
use auxitalk.Base.Decimal.{decimal}
use auxitalk.Types.Event.{Time}
use auxitalk.Types.Action.{ActionRequest}
use auxitalk.Types.Action
use auxitalk.Types.Execution.{is_execution_status, is_workflow_action_type}
use auxitalk.Types.Execution
use auxitalk.Workflows.Executor.{MockExecutor, new_execution, store_execution, execute}

new_execution-valid :
    (now : Time) (a : ActionRequest) (x : MockExecutor)
    → now ≢ 0
    → Action.validate a ≡ none
    → Execution.validate (new_execution now a x).1 ≡ none
unfolding Action.validate Execution.validate is_execution_status new_execution all_space is_space
new_execution-valid now a x n h =
    ground (arith, is_blank-concat "mock-exec-" (decimal ((x.seq + 1) % 2 ^ 64) ∷ []) refl)

executions-new_execution :
    (now : Time) (a : ActionRequest) (x : MockExecutor)
    → (new_execution now a x).0.executions ≡ x.executions
unfolding new_execution
executions-new_execution now a x = refl

store_execution-valid :
    (p : MockExecutor × Execution.ActionExecution)
    → Execution.validate p.1 ≡ none
    → store_execution p ≡ (record (p.0) { executions = p.0.executions ++ p.1 ∷ [] }, ok p.1)
unfolding store_execution
store_execution-valid (x, e) h = rw (h, store_execution)

-- An action is run exactly when it is valid, its type is one of a workflow and the context is not
-- over; then its execution is returned and kept behind the earlier ones. Otherwise there is an
-- error and the executor stays as it was. The clock must not read the zero time.
pub execute_exact :
    (done : Option Error) (now : Time) (a : ActionRequest) (x : MockExecutor)
    → now ≢ 0
    → ((Action.validate a ≡ none)
        × (is_workflow_action_type a.type ≡ true)
        × (done ≡ none)
        × ((execute done now a x).1 ≡ ok (new_execution now a x).1)
        × ((execute done now a x).0.executions ≡ x.executions ++ (new_execution now a x).1 ∷ []))
      ⊎ (((Action.validate a ≢ none) ⊎ (is_workflow_action_type a.type ≡ false) ⊎ (done ≢ none))
          × ((e : Error) × ((execute done now a x).1 ≡ err e))
          × ((execute done now a x).0 ≡ x))
unfolding execute
execute_exact done now a x n = elim (Option-cases (Action.validate a)) [
  | inr (e, p) ↦ rw (p, execute) (inr (inl (λ q. cc), (e, refl), refl))
  | inl p ↦ elim (Bool-cases (is_workflow_action_type a.type)) [
    | inr t ↦ rw (p, execute, t) (inr (inr (inl refl), (_, refl), refl))
    | inl t ↦ elim (Option-cases done) [
      | inr (e, d) ↦ rw (p, execute, t, d) (inr (inr (inr (λ q. cc)), (e, refl), refl))
      | inl d ↦
          let e = store_execution-valid (new_execution now a x) (new_execution-valid now a x n p) in
          rw (p, execute, t, d)
            (inl (
              refl,
              refl,
              refl,
              ap (λ q. q.1) e,
              ap (λ q. q.0.executions) e
                  ∙ ap (λ l. l ++ (new_execution now a x).1 ∷ [])
                      (executions-new_execution now a x),
            ))
    ]
  ]
]
