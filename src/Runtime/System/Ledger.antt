-- ===== src/Runtime/System/Ledger.antt =====
-- The abstract specification of the daemon: a ledger of the approvals and of the actions started,
-- and the moves that it allows.
use auxitalk.Base.{String, List, [], ◌∷◌, ◌++◌, ◌≡◌}
use auxitalk.Types.Action.{ActionRequest, allowed}
use auxitalk.Runtime.Publish.Closed.{IsPermitted}

pub record Ledger : Type 0 where
  pub approved : List String
  pub started : List ActionRequest

-- In a mode, the daemon starts an action that the mode permits, or one that the user approves, and
-- then with the id that was approved; an approval may also start nothing.
pub data Moves (mode : String) (l : Ledger) : Ledger → Type 0 where
  still : Moves mode l l
  permits :
      (a : ActionRequest) {m : Ledger}
      → IsPermitted mode a
      → Moves mode l m
      → Moves mode l (record m { started = m.started ++ a ∷ [] })
  approves :
      (a : ActionRequest) {m : Ledger}
      → a.status ≡ allowed
      → Moves mode l m
      → Moves mode l (record { approved = m.approved ++ a.id ∷ []; started = m.started ++ a ∷ [] })
  approves_none :
      (id : String) {m : Ledger}
      → Moves mode l m
      → Moves mode l (record m { approved = m.approved ++ id ∷ [] })
