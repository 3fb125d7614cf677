-- ===== src/Runtime/Publish/Permitted.antt =====
-- Events start only actions that the gate of the runtime's mode allows.
use mathlib.Core.List.{append_assoc, append-nil}
use auxitalk.Base.{
  ℕ, String, List, [], ◌∷◌, ◌++◌, ◌≡◌, refl, sym, ap, ◌∙◌, arith, string_eq, eq_iff, All,
  All-append,
}
use auxitalk.Types.Event.{Event, Time}
use auxitalk.Types.Action.{ActionRequest}
use auxitalk.Actions.Gate.{mode_dev, mode_local, mode_strict}
use auxitalk.Runtime.Publish.Closed.{IsPermitted, IsClosed, publish-keeps}
use auxitalk.Runtime.Deps.{Runtime, Handler, execute_async}
use auxitalk.Runtime.Publish.{publish_at}

-- The runtime runs what it ran before, and behind it actions that the mode permits.
pub record Grown (mode : String) (old : List ActionRequest) (r : Runtime) : Type 0 where
  pub mode_same : r.mode ≡ mode
  pub new : List ActionRequest
  pub running_new : r.running ≡ old ++ new
  pub new_permitted : All (IsPermitted mode) new

Grown-IsClosed : (mode : String) (old : List ActionRequest) → IsClosed mode (Grown mode old)
unfolding execute_async
Grown-IsClosed mode old = record {
  mode_same = λ r p. p.mode_same;
  framed = λ r s m a n g u p. unchanged r s m n p;
  saved = λ a r p. unchanged r _ refl refl p;
  changed = λ id status r p. unchanged r _ refl refl p;
  started = λ a r h p. record {
    mode_same = p.mode_same;
    new = p.new ++ a ∷ [];
    running_new = ap (λ l. l ++ a ∷ []) p.running_new ∙ append_assoc old p.new (a ∷ []);
    new_permitted = All-append (IsPermitted mode) p.new (a ∷ []) p.new_permitted (h, tt);
  };
}
  where
    unchanged :
        (r s : Runtime)
        → s.mode ≡ r.mode
        → s.running ≡ r.running
        → Grown mode old r
        → Grown mode old s
    unchanged r s m n p = record {
      mode_same = m ∙ p.mode_same;
      new = p.new;
      running_new = n ∙ p.running_new;
      new_permitted = p.new_permitted;
    }

module _ (time_at : ℕ → Time) (order wild_order : List (ℕ × Handler) → List (ℕ × Handler))
    (nesting : ℕ) (e : Event) (r : Runtime) where
  -- Whatever workflows an event sets off, however deeply their events nest, each action that is
  -- started is valid, has the status allowed, and stands in dev mode, or in local mode at low risk;
  -- no action that was under way is lost, and the mode stays.
  pub publish_at-Grown : Grown r.mode r.running (publish_at time_at order wild_order nesting e r).0
  publish_at-Grown =
      publish-keeps time_at r.mode (Grown r.mode r.running) (Grown-IsClosed r.mode r.running) order
        wild_order nesting e r
        (record {
          mode_same = refl;
          new = [];
          running_new = sym (append-nil r.running);
          new_permitted = tt;
        })

  none_permitted :
      (as' : List ActionRequest) → r.mode ≡ mode_strict → All (IsPermitted r.mode) as' → as' ≡ []
  none_permitted [] s h = refl
  none_permitted (a ∷ as') s h =
      absurd
        (ground (arith, h.0.by_mode, eq_iff mode_strict mode_dev, eq_iff mode_strict mode_local))

  -- In strict mode no event, whatever workflows it sets off, starts any action.
  running-publish_strict :
      r.mode ≡ mode_strict → (publish_at time_at order wild_order nesting e r).0.running ≡ r.running
  running-publish_strict s =
      let g = publish_at-Grown in
      g.running_new
      ∙ ap (λ l. r.running ++ l) (none_permitted g.new s g.new_permitted)
      ∙ append-nil r.running
