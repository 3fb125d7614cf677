-- ===== src/Runtime/System/Approved.antt =====
-- What the daemon starts, from its boot on, against its ledger and its approvals.
use mathlib.Core.List.{Sublistᴰ, append-nil}
use mathlib.Core.List.Sublistᴰ
use auxitalk.Base.{
  ℕ, ℤ, String, List, [], ◌∷◌, ◌++◌, Option, some, Result, ok, ◌≡◌, refl, ap, arith, string_eq,
  eq_iff,
}
use auxitalk.Types.Value.{Value}
use auxitalk.Types.Event.{Time}
use auxitalk.Types.Action.{ActionRequest}
use auxitalk.Actions.Gate.{mode_dev, mode_local, mode_strict}
use auxitalk.Config.{Config}
use auxitalk.Workflows.Registry.{Registry}
use auxitalk.Runtime.Deps.{Handler}
use auxitalk.Runtime.Publish.Closed.{IsPermitted}
use auxitalk.Runtime.System.{Daemon, Input, approvals_of, publish, steps}
use auxitalk.Runtime.System.Boot.{Begins, boot}
use auxitalk.Runtime.System.Ledger.{Ledger, Moves, still, permits, approves, approves_none}
use auxitalk.Runtime.System.Whole.{nothing, start-Reached}

-- the ids of actions, in order
abbrev pub ids_of : List ActionRequest → List String
ids_of [] = []
ids_of (a ∷ actions) = a.id ∷ ids_of actions

ids_of-append : (xs ys : List ActionRequest) → ids_of (xs ++ ys) ≡ ids_of xs ++ ids_of ys
ids_of-append [] ys = refl
ids_of-append (x ∷ xs) ys = ap (λ l. x.id ∷ l) (ids_of-append xs ys)

none_permitted : (mode : String) (a : ActionRequest) → mode ≡ mode_strict → IsPermitted mode a → ⊥
none_permitted mode a s h =
    ground (arith, h.by_mode, eq_iff mode_strict mode_dev, eq_iff mode_strict mode_local)

module _ (mode : String) (s : mode ≡ mode_strict) where
  -- In strict mode the ledger's moves start approved ids only, in the order of their approvals.
  moves-Sublist : (l : Ledger) → Moves mode nothing l → Sublistᴰ (ids_of l.started) l.approved
  moves-Sublist l still = Sublistᴰ.slnil
  moves-Sublist l (permits a h m) = absurd (none_permitted mode a s h)
  moves-Sublist l (approves a {m} h k) =
      rw (ids_of-append m.started (a ∷ []))
        (Sublistᴰ.append (moves-Sublist m k) (Sublistᴰ.cons-cons refl Sublistᴰ.slnil))
  moves-Sublist l (approves_none id {m} k) =
      rw⁻¹ (append-nil (ids_of m.started))
        (Sublistᴰ.append (moves-Sublist m k) (Sublistᴰ.cons Sublistᴰ.slnil))

module _ (number : ℤ → Value) (time_at : ℕ → Time)
    (order wild_order : List (ℕ × Handler) → List (ℕ × Handler)) (nesting : ℕ)
    (listing rules_order : Registry → Registry) where
  abbrev run : List Input → Daemon → Daemon
  run = steps number time_at order wild_order nesting listing rules_order

  abbrev start : Begins → Config → Option (Result Daemon)
  start =
      boot number time_at (publish number time_at order wild_order nesting listing rules_order)
        rules_order

  -- From its start on, whatever the database holds and whatever reaches it from its API, its plugins
  -- and its executions in whatever order, the daemon implements the ledger: each action that it starts
  -- is one that the mode of its configuration permits, or one that an approval of the API starts, with
  -- the id approved, each approval starting one action at most. The inputs are taken one after the
  -- other, and an event's handlers return before their deadline.
  pub start-Moves :
      (b : Begins) (c : Config) (d : Daemon) (is : List Input)
      → start b c ≡ some (ok d)
      → Moves c.mode nothing (record {
        approved = approvals_of is;
        started = (run is d).configured.host.runtime.running;
      })
  start-Moves b c d is e =
      (start-Reached number time_at order wild_order nesting listing rules_order b c d is e).moved

  -- In strict mode, whatever the database holds and whatever reaches the daemon after its start, the
  -- ids of the actions that it starts are, in order, among the ids that the API's POST requests to
  -- /api/actions/<id>/approve approve, each approval counted once.
  pub start-approved :
      (b : Begins) (c : Config) (d : Daemon) (is : List Input)
      → start b c ≡ some (ok d)
      → c.mode ≡ mode_strict
      → Sublistᴰ (ids_of (run is d).configured.host.runtime.running) (approvals_of is)
  start-approved b c d is e s = moves-Sublist c.mode s _ (start-Moves b c d is e)
