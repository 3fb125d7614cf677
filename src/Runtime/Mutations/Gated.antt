-- ===== src/Runtime/Mutations/Gated.antt =====
-- What becomes of an action that a workflow requests.
use auxitalk.Base.{
  ℕ, List, [], ◌∷◌, ◌++◌, none, some, ◌≡◌, ◌≢◌, ◌⊎◌, refl, ap, ◌∙◌, arith, eq_iff, ◌==◌, string_eq,
  if◌then◌else◌, inl, inr, Option-cases, Bool-cases,
}
use auxitalk.Base.Map.{lookup, put, lookup-put}
use auxitalk.Types.Event.{Time}
use auxitalk.Types.Action.{ActionRequest, allowed, confirmed}
use auxitalk.Actions.Gate.{decide}
use auxitalk.Actions.Gate.Policy.{decide-error_iff}
use auxitalk.Actions.Store.{save}
use auxitalk.Runtime.Deps.{Runtime, Handler, execute_async}
use auxitalk.Runtime.Publish.{Publisher, accept_action, gate_action}
use auxitalk.Runtime.Publish.Still.{IsUnheard}
use auxitalk.Runtime.Mutations.Effects.{publish, with_status, persist-keeps, status-written}

-- `b` is in the store of `s`, and is started exactly if it is allowed.
abbrev pub Taken : ActionRequest → Runtime → Runtime → Type 0
Taken b r s =
    (lookup b.id s.actions ≡ some b)
    × (s.running ≡ (if b.status == allowed then r.running ++ b ∷ [] else r.running))

module _ (time_at : ℕ → Time) (order wild_order : List (ℕ × Handler) → List (ℕ × Handler))
    (nesting : ℕ) where
  abbrev own : Publisher
  own = publish time_at order wild_order nesting

  accept-Taken :
      (b : ActionRequest) (r : Runtime)
      → IsUnheard "action.requested" r.engine.rules
      → Taken b r (accept_action time_at own b r)
  unfolding accept_action execute_async save
  accept-Taken b r h =
      let s = record r { actions = put b.id b r.actions } in
      let k = persist-keeps b s in
      let p = status-written time_at order wild_order nesting "action.requested" b s h in
      let found : lookup b.id (put b.id b r.actions) ≡ some b =
        lookup-put b.id b.id b r.actions ∙ rw ((eq_iff b.id b.id).1 refl) in
      elim (Bool-cases (b.status == allowed)) [
        | inl y ↦
            rw y
              (ap (lookup b.id) (p.actions ∙ k.0) ∙ found, ap (λ l. l ++ b ∷ []) (p.running ∙ k.1))
        | inr n ↦ rw n (ap (lookup b.id) (p.actions ∙ k.0) ∙ found, p.running ∙ k.1)
      ]

  -- A request to which the gate gives no status is refused with an error and changes nothing. Any
  -- other is stored with the gate's status, without an error even if it is denied, and is started
  -- exactly if it is allowed. This is if no rule of the engine has the trigger action.requested or *.
  pub gate_effect :
      (a : ActionRequest) (r : Runtime)
      → IsUnheard "action.requested" r.engine.rules
      → (((decide r.mode a).0 ≡ "")
          × ((gate_action time_at own a r).0 ≡ r)
          × ((gate_action time_at own a r).1 ≢ none))
        ⊎ (((decide r.mode a).0 ≢ "")
            × ((gate_action time_at own a r).1 ≡ none)
            × Taken (with_status a (decide r.mode a).0) r (gate_action time_at own a r).0)
  unfolding gate_action
  gate_effect a r h =
      let taken = accept-Taken (with_status a (decide r.mode a).0) r h in
      elim (Option-cases (decide r.mode a).1) [
        | inl n ↦
            let named : (decide r.mode a).0 ≢ "" =
              ground
                (arith, (decide-error_iff r.mode a).0 n, eq_iff allowed "", eq_iff confirmed "") in
            rw (n, gate_action) (inr (named, refl, taken))
        | inr (x, e) ↦ elim (Bool-cases ((decide r.mode a).0 == "")) [
          | inl y ↦
              rw (e, gate_action, y) (inl ((eq_iff (decide r.mode a).0 "").0 y, refl, (λ p. cc)))
          | inr m ↦
              let named : (decide r.mode a).0 ≢ "" =
                ground (arith, eq_iff (decide r.mode a).0 "") in
              rw (e, gate_action, m) (inr (named, refl, taken))
        ]
      ]
