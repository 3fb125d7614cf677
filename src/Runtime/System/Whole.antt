-- ===== src/Runtime/System/Whole.antt =====
-- The daemon from its start on implements the ledger.
use mathlib.Core.Path.{subst}
use auxitalk.Workflows.Engine.{Engine}
use auxitalk.Storage.Read.{list_actions}
use auxitalk.Base.{
  pos, ◌==◌, if-elim, ℕ, ℤ, String, List, [], ◌∷◌, Option, none, some, Error, ok, err, Result, ◌≡◌,
  refl, inl, inr, Result-cases, string_eq,
}
use auxitalk.Types.Value.{Value}
use auxitalk.Types.Event.{Event, Time}
use auxitalk.Types.Action.{ActionRequest}
use auxitalk.Actions.Store.{Store}
use auxitalk.Actions.Store.Laws.{IsStore, store-IsStore, empty-IsStore}
use auxitalk.Config.{Config}
use auxitalk.Storage.{Storage}
use auxitalk.Workflows.Registry.{Registry}
use auxitalk.Runtime.Deps.{Runtime, Handler}
use auxitalk.Runtime.Restore.{
  with_engine, listed, save_workflows, Queries, save_actions, open_storage, restore, load_stored,
  load_tables, restore_events, new_runtime,
}
use auxitalk.Runtime.System.{Daemon, Input, approvals_of, publish, steps}
use auxitalk.Runtime.System.Boot.{Begins, boot}
use auxitalk.Runtime.System.Ledger.{Ledger, still}
use auxitalk.Runtime.System.Begun.{Holds, daemon-kept}
use auxitalk.Runtime.System.Refines.{Reached, Reached-IsTracked}

save_actions-IsStore :
    (as' : List ActionRequest) (s : Store) → IsStore s → IsStore (save_actions as' s)
unfolding save_actions
save_actions-IsStore [] s h = h
save_actions-IsStore (a ∷ as') s h = save_actions-IsStore as' _ (store-IsStore a "" "" s h).0

-- nothing approved and nothing started
abbrev pub nothing : Ledger
nothing = record { approved = []; started = [] }

module _ (mode : String) where
  -- The runtime before its first input: no action is started, and each stored one has its own id.
  pub record IsFresh (r : Runtime) : Type 0 where
    pub mode_same : r.mode ≡ mode
    pub stored : IsStore r.actions
    pub idle : r.running ≡ []

  fresh-Reached : (r : Runtime) → IsFresh r → Reached mode nothing [] r
  fresh-Reached r f = record {
    mode_same = f.mode_same;
    stored = f.stored;
    moved = rw (f.idle) still;
  }

  restore_events-IsFresh :
      (es : Result (List Event)) (r : Runtime) → IsFresh r → IsFresh (restore_events es r)
  unfolding restore_events
  restore_events-IsFresh (err e) r f = f
  restore_events-IsFresh (ok es) r f = record {
    mode_same = f.mode_same;
    stored = f.stored;
    idle = f.idle;
  }

  restore-IsFresh :
      (q : Queries) (order : Registry → Registry) (c : Config) (st : Storage) (r : Runtime)
      → IsFresh r
      → IsFresh (restore q order c st r)
  unfolding restore load_stored load_tables
  restore-IsFresh q order c st r f =
      let g = restore_events-IsFresh _ (load_tables q order c st r) (record {
        mode_same = f.mode_same;
        stored =
            save_actions-IsStore
              (listed (list_actions q.actions (pos 1000) (save_workflows c.workflows st))) r.actions
              f.stored;
        idle = f.idle;
      }) in
      record { mode_same = g.mode_same; stored = g.stored; idle = g.idle }

  pub open_storage-IsFresh :
      (q : Queries) (order : Registry → Registry) (c : Config) (opened : Result Storage)
      (r : Runtime)
      → IsFresh r
      → IsFresh (open_storage q order c opened r).0
  unfolding open_storage
  open_storage-IsFresh q order c opened r f =
      if-elim {A = Runtime × Option Error} (λ x. IsFresh x.0) (c.sqlite_path == "") (λ _. f)
        (λ _. elim (Result-cases opened) [
          | inl (e, m) ↦ simp m f
          | inr (st, m) ↦ simp m (restore-IsFresh q order c st r f)
        ])

with_engine-Holds :
    (c : Config) (reg : Registry) (p : Engine × Option Error)
    → Holds (IsFresh c.mode) (with_engine c reg p)
with_engine-Holds c reg (x, some e) = tt
with_engine-Holds c reg (x, none) = record { mode_same = refl; stored = empty-IsStore; idle = refl }

new_runtime-Holds :
    (order : Registry → Registry) (c : Config) → Holds (IsFresh c.mode) (new_runtime order c)
unfolding new_runtime
new_runtime-Holds order c = with_engine-Holds c _ _

pub new_runtime-IsFresh :
    (order : Registry → Registry) (c : Config) (r : Runtime)
    → new_runtime order c ≡ some r
    → IsFresh c.mode r
new_runtime-IsFresh order c r e = subst (Holds (IsFresh c.mode)) e (new_runtime-Holds order c)

module _ (number : ℤ → Value) (time_at : ℕ → Time)
    (order wild_order : List (ℕ × Handler) → List (ℕ × Handler)) (nesting : ℕ)
    (listing rules_order : Registry → Registry) where
  pub start-Reached :
      (b : Begins) (c : Config) (d : Daemon) (is : List Input)
      → boot number time_at
          (publish number time_at order wild_order nesting listing rules_order)
          rules_order
          b
          c
        ≡ some (ok d)
      → Reached c.mode nothing
          (approvals_of is)
          (steps number time_at order wild_order nesting listing rules_order is
            d).configured.host.runtime
  start-Reached b c =
      daemon-kept c.mode (Reached c.mode nothing) number time_at order wild_order nesting listing
        rules_order (Reached-IsTracked c.mode nothing time_at rules_order) b c
        (λ r e. fresh-Reached c.mode _ (
          open_storage-IsFresh c.mode b.queries rules_order c b.opened r
            (new_runtime-IsFresh rules_order c r e)))
