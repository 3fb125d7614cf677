-- ===== src/Workflows/Engine/Numbered.antt =====
-- The ids of the requested actions.
use Prim.Native.String
use text.Mathlib.TextLemmas.{append_assoc, append-nil}
use auxitalk.Base.{
  ℕ, ◌+◌, ◌%◌, ◌^◌, ◌<◌, ◌≤◌, String, List, [], ◌∷◌, Option, Error, ◌≡◌, ◌≢◌, sym, ap, ◌∙◌, arith,
  length, All,
}
use auxitalk.Base.Text.{concat}
use auxitalk.Base.Decimal.{decimal}
use auxitalk.Base.Decimal.Read.{decimal-injective_tail}
use auxitalk.Types.Event.{Event, Time}
use auxitalk.Types.Action.{ActionRequest}
use auxitalk.Types.Session.{Session}
use auxitalk.Types.Workflow.{WorkflowRule, WorkflowAction, get_actions}
use auxitalk.Workflows.Engine.{Engine, new_action, new_actions, new_actions_loop}

-- The id of an action ends in a 64-bit number above `low`.
record Numbered (low : ℕ) (a : ActionRequest) : Type 0 where
  number : ℕ
  above : low < number
  fits : number < 2 ^ 64
  front : String
  id_of : a.id ≡ String.◌++◌ front (String.◌++◌ "-" (decimal number))

Numbered-lower : (low high : ℕ) (a : ActionRequest) → low ≤ high → Numbered high a → Numbered low a
Numbered-lower low high a h n = record {
  number = n.number;
  above = (let k = n.above in omega arith);
  fits = n.fits;
  front = n.front;
  id_of = n.id_of;
}

each_lower :
    (low high : ℕ) (as' : List ActionRequest)
    → low ≤ high
    → All (Numbered high) as'
    → All (Numbered low) as'
each_lower low high [] h n = tt
each_lower low high (a ∷ as') h n = (Numbered-lower low high a h n.0, each_lower low high as' h n.1)

-- No two actions of the list have the same id.
abbrev pub HasDistinctIds : List ActionRequest → Type 0
HasDistinctIds [] = Unit
HasDistinctIds (a ∷ as') = All (λ b. a.id ≢ b.id) as' × HasDistinctIds as'

other_ids :
    (low : ℕ) (a : ActionRequest) (as' : List ActionRequest) (n : Numbered 0 a)
    → n.number ≤ low
    → All (Numbered low) as'
    → All (λ b. a.id ≢ b.id) as'
other_ids low a [] n h all = tt
other_ids low a (b ∷ as') n h all = (
  (λ e.
      let m = all.0 in
      let same =
        decimal-injective_tail n.front m.front n.number m.number n.fits m.fits
          (sym n.id_of ∙ e ∙ m.id_of) in
      let above = m.above in omega arith),
  other_ids low a as' n h all.1,
)

module _ {S : Type 0} (engine : S → Engine) (set_engine : Engine → S → S) (clock : S → S × Time)
    (resolve : String → S → Option Session) (sink : ActionRequest → S → S × Option Error)
    (set_get : (x : Engine) (s : S) → engine (set_engine x s) ≡ x)
    (clock_get : (s : S) → engine (clock s).0 ≡ engine s) where
  abbrev made_loop :
      WorkflowRule → Event → Session → List WorkflowAction → S → S × List ActionRequest
  made_loop = new_actions_loop engine set_engine clock resolve sink

  new_action-Numbered :
      (rule : WorkflowRule) (a : WorkflowAction) (e : Event) (session : Session) (n : ℕ)
      (now : Time) (low : ℕ)
      → low < n
      → n < 2 ^ 64
      → Numbered low (new_action rule a e session n now)
  unfolding new_action concat
  new_action-Numbered rule a e session n now low h f = record {
    number = n;
    above = h;
    fits = f;
    front = String.◌++◌ "workflow-" rule.id;
    id_of =
        ap (λ t. String.◌++◌ "workflow-" (String.◌++◌ rule.id (String.◌++◌ "-" t)))
          (append-nil (decimal n))
        ∙ sym (append_assoc "workflow-" rule.id (String.◌++◌ "-" (decimal n)));
  }

  loop-Numbered :
      (rule : WorkflowRule) (e : Event) (session : Session) (as' : List WorkflowAction) (s : S)
      → (engine s).id_seq + length as' < 2 ^ 64
      → All (Numbered (engine s).id_seq) (made_loop rule e session as' s).1
        × HasDistinctIds (made_loop rule e session as' s).1
  unfolding new_actions_loop new_action-Numbered
  loop-Numbered rule e session [] s h = (tt, tt)
  loop-Numbered rule e session (a ∷ as') s h =
      let low = (engine s).id_seq in
      let n : ℕ = (low + 1) % 2 ^ 64 in
      let up : n ≡ low + 1 = omega arith in
      let x : Engine = record (engine s) { id_seq = n } in
      let s' : S = (clock (set_engine x s)).0 in
      let at : (engine s').id_seq ≡ n =
        ap (λ y. y.id_seq) (clock_get (set_engine x s) ∙ set_get x s) in
      let rest = loop-Numbered rule e session as' s' (omega arith) in
      let first =
        new_action-Numbered rule a e session n (clock (set_engine x s)).1 0 (omega arith)
          (omega arith) in
      (
        (
          new_action-Numbered rule a e session n (clock (set_engine x s)).1 low (omega arith)
              (omega arith),
          each_lower low (engine s').id_seq _ (omega arith) rest.0,
        ),
        (other_ids (engine s').id_seq _ _ first (omega arith) rest.0, rest.1),
      )

  -- The actions that a rule makes of an event have ids of their own, as long as the counter does
  -- not wrap. This is for a state that gives back the engine that was put into it, and a clock that
  -- leaves the engine alone.
  pub new_actions-HasDistinctIds :
      (rule : WorkflowRule) (e : Event) (s : S)
      → (engine s).id_seq + length (get_actions rule) < 2 ^ 64
      → HasDistinctIds (new_actions engine set_engine clock resolve sink rule e s).1
  unfolding new_actions
  new_actions-HasDistinctIds rule e s h = (loop-Numbered rule e _ (get_actions rule) s h).1
