-- ===== src/Runtime/System/Refines.antt =====
-- The daemon implements its ledger.
use mathlib.Core.Path.{subst}
use auxitalk.Base.{
  arith, ℕ, String, List, [], ◌∷◌, ◌++◌, ok, err, Result, ◌≡◌, refl, sym, ◌∙◌, inl, inr,
  Option-cases, string_eq,
}
use auxitalk.Base.Map.{lookup}
use auxitalk.Types.Event.{Event, Time}
use auxitalk.Types.Action.{ActionRequest, allowed}
use auxitalk.Actions.Store.{Store, update_status}
use auxitalk.Actions.Store.Laws.{IsStore, store-IsStore, update_status-IsStore}
use auxitalk.Workflows.Registry.{Registry}
use auxitalk.Runtime.Deps.{Runtime, execute_async}
use auxitalk.Runtime.Publish.{Publisher}
use auxitalk.Runtime.Publish.Closed.{IsClosed, status-keeps}
use auxitalk.Runtime.Mutations.{approve_action, approve_updated}
use auxitalk.Runtime.Mutations.Kept.{persist-keeps}
use auxitalk.Runtime.Reload.{install}
use auxitalk.Runtime.System.Kept.{IsTracked}
use auxitalk.Runtime.System.Ledger.{Ledger, Moves, permits, approves, approves_none}

-- The approvals and the actions started are a state of the ledger that the moves from `l` reach; the
-- mode is the same, and each stored action has its own id.
pub record Reached (mode : String) (l : Ledger) (ids : List String) (r : Runtime) : Type 0 where
  pub mode_same : r.mode ≡ mode
  pub stored : IsStore r.actions
  pub moved : Moves mode l (record { approved = ids; started = r.running })

updated :
    (id : String) (r : Runtime)
    → IsStore r.actions
    → (a : ActionRequest) → (update_status id allowed r.actions).1 ≡ ok a
    → (a.status ≡ allowed) × (id ≡ a.id)
unfolding update_status
updated id r h a e = elim (Option-cases (lookup id r.actions)) [
  | inl n ↦ ground arith
  | inr (b, f) ↦ (let k = h.keyed id b f in ground arith)
]

module _ (mode : String) (l : Ledger) where
  pub Reached-IsClosed : (ids : List String) → IsClosed mode (Reached mode l ids)
  unfolding execute_async
  Reached-IsClosed ids = record {
    mode_same = λ r p. p.mode_same;
    framed = λ r s m a n g u p. record {
      mode_same = m ∙ p.mode_same;
      stored = subst IsStore (sym a) p.stored;
      moved = subst (λ x. Moves mode l (record { approved = ids; started = x })) (sym n) p.moved;
    };
    saved = λ a r p. record {
      mode_same = p.mode_same;
      stored = (store-IsStore a "" "" r.actions p.stored).0;
      moved = p.moved;
    };
    changed = λ id status r p. record {
      mode_same = p.mode_same;
      stored = update_status-IsStore id status r.actions p.stored;
      moved = p.moved;
    };
    started = λ a r h p. record {
      mode_same = p.mode_same;
      stored = p.stored;
      moved = permits a h p.moved;
    };
  }

  module _ (time_at : ℕ → Time) (publish : Publisher)
      (keeps : (ids : List String) (e : Event) (r : Runtime)
        → Reached mode l ids r
        → Reached mode l ids (publish e r).0) where
    -- what follows UpdateStatus in ApproveAction
    approved-Reached :
        (id : String) (ids : List String) (r : Runtime) (x : Store × Result ActionRequest)
        → ((a : ActionRequest) → x.1 ≡ ok a → (a.status ≡ allowed) × (id ≡ a.id))
        → Reached mode l ids r
        → Reached mode l ids (record r { actions = x.0 })
        → Reached mode l (ids ++ id ∷ []) (approve_updated time_at publish x r).0
    unfolding approve_updated execute_async
    approved-Reached id ids r (s, err e) h p q = record {
      mode_same = p.mode_same;
      stored = p.stored;
      moved = approves_none id p.moved;
    }
    approved-Reached id ids r (s, ok a) h p q =
        let c = Reached-IsClosed ids in
        let w =
          status-keeps time_at mode (Reached mode l ids) c publish (keeps ids) "action.approved" a _
            (persist-keeps time_at mode (Reached mode l ids) c publish (keeps ids) a _ q) in
        record {
          mode_same = w.mode_same;
          stored = w.stored;
          moved = rw ((h a refl).1) (approves a (h a refl).0 w.moved);
        }

    -- An approval adds its id to the ledger, and the action that it starts has this id.
    pub approve-Reached :
        (id : String) (ids : List String) (r : Runtime)
        → Reached mode l ids r
        → Reached mode l (ids ++ id ∷ []) (approve_action time_at publish id r).0
    unfolding approve_action
    approve-Reached id ids r p =
        approved-Reached id ids r _ (updated id r p.stored) p
          ((Reached-IsClosed ids).changed id allowed r p)

  -- The ledger is tracked by the daemon.
  pub Reached-IsTracked :
      (time_at : ℕ → Time) (rules_order : Registry → Registry)
      → IsTracked mode (Reached mode l) time_at rules_order
  unfolding install
  Reached-IsTracked time_at rules_order = record {
    closed = Reached-IsClosed;
    approves = approve-Reached time_at;
    installs = λ ids ws r p. record { mode_same = p.mode_same; stored = p.stored; moved = p.moved };
  }
