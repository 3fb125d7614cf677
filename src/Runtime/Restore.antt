-- ===== src/Runtime/Restore.antt =====
-- New and openStorage: what the runtime starts with.
pub mod Consistent
use auxitalk.Base.{
  ℕ, ◌*◌, ◌+◌, ◌-◌, ◌%◌, ◌^◌, ltb, ℤ, pos, pos_part, negsuc, String, List, [], ◌∷◌, Option, none,
  some, Error, Result, ok, err, ◌==◌, string_eq, if◌then◌else◌,
}
use auxitalk.Base.Lists.{reverse}
use auxitalk.Types.Event.{Event}
use auxitalk.Types.Action.{ActionRequest}
use auxitalk.Types.Session.{Session}
use auxitalk.Types.Workflow.{Workflow}
use auxitalk.Actions.Store.{Store}
use auxitalk.Actions.Store
use auxitalk.Sessions.{Manager}
use auxitalk.Sessions
use auxitalk.Events.Bus.{restore_history}
use auxitalk.Events.Bus
use auxitalk.Storage.{Storage, save_workflow}
use auxitalk.Storage.Read.{Query, list_events, list_actions, list_workflows, list_sessions}
use auxitalk.Workflows.Registry.{Registry, new_registry, registry_rules}
use auxitalk.Workflows.Registry
use auxitalk.Workflows.Engine.{Engine, set_rules}
use auxitalk.Config.{Config}
use auxitalk.Runtime.Deps.{Runtime}

-- _ = r.workflowRegistry.Register(workflow), for each
unfoldable pub register_all : List Workflow → Registry → Registry
register_all [] reg = reg
register_all (w ∷ ws) reg = register_all ws (Registry.register w reg).0

-- _ = r.storage.SaveWorkflow(ctx, workflow), for each
unfoldable pub save_workflows : List Workflow → Storage → Storage
save_workflows [] st = st
save_workflows (w ∷ ws) st = save_workflows ws (save_workflow w st).0

unfoldable pub save_actions : List ActionRequest → Store → Store
save_actions [] s = s
save_actions (a ∷ actions) s = save_actions actions (Store.save a s)

-- _ = r.sessions.Create(session), for each
unfoldable pub create_sessions : List Session → Manager → Manager
create_sessions [] m = m
create_sessions (s ∷ ss) m = create_sessions ss (Sessions.create s m).0

-- the list, or nothing with an error
abbrev pub listed : {A : Type 0} → Result (List A) → List A
listed (ok xs) = xs
listed (err e) = []

-- what New makes of the engine and the error of NewEngine
abbrev pub with_engine : Config → Registry → Engine × Option Error → Option Runtime
with_engine c reg (x, some e) = none
with_engine c reg (x, none) = some (record {
  mode = c.mode;
  bus = Bus.new c.runtime.request_timeout (pos 1000);
  actions = Store.new;
  registry = reg;
  engine = x;
  sessions = Sessions.new_manager;
  storage = none;
  reads = 0;
  running = [];
})

-- New; `order` is that of the iteration of EnabledRules. It drops the error of NewEngine, which
-- refuses what SetRules refuses, and then has no engine to set the executor of: `none`.
unfoldable pub new_runtime : (order : Registry → Registry) → Config → Option Runtime
unfolding register_all
new_runtime order c =
    let reg = register_all c.workflows new_registry in
    with_engine c reg (set_rules (registry_rules order reg) (record { rules = []; id_seq = 0 }))

-- a word of 64 bits as an `int`
abbrev pub as_int : ℕ → ℤ
as_int w = if ltb w (2 ^ 63) then pos w else negsuc (2 ^ 64 - 1 - w)

-- x * 10 on an `int` of 64 bits, which wraps around
abbrev pub ten_times : ℤ → ℤ
ten_times (pos n) = as_int (n * 10 % 2 ^ 64)
ten_times (negsuc n) = as_int ((2 ^ 64 - (n + 1) * 10 % 2 ^ 64) % 2 ^ 64)

-- r.events.RestoreHistory(events), unless ListEvents fails
unfoldable pub restore_events : Result (List Event) → Runtime → Runtime
restore_events (err e) r = r
restore_events (ok events) r = record r { bus = restore_history (reverse events) r.bus }

-- The queries of the four lists.
pub record Queries : Type 0 where
  pub events : Query Event
  pub actions : Query ActionRequest
  pub workflows : Query Workflow
  pub sessions : Query Session

module _ (q : Queries) (order : Registry → Registry) (c : Config) where
  -- openStorage behind Open, up to ListEvents
  unfoldable pub load_tables : Storage → Runtime → Runtime
  unfolding register_all save_workflows save_actions create_sessions list_actions list_workflows
      list_sessions
  load_tables st r =
      let st' = save_workflows c.workflows st in
      record r {
        storage = some st';
        registry =
            register_all c.workflows
              (register_all (listed (list_workflows q.workflows st)) r.registry);
        actions = save_actions (listed (list_actions q.actions (pos 1000) st')) r.actions;
        sessions = create_sessions (listed (list_sessions q.sessions (pos 1000) st')) r.sessions;
      }

  -- and up to SetRules
  unfoldable pub load_stored : Storage → Runtime → Runtime
  unfolding load_tables restore_events list_events
  load_stored st r =
      restore_events
        (list_events q.events (ten_times c.runtime.max_events_per_second)
          (save_workflows c.workflows st))
        (load_tables st r)

  unfoldable pub restore : Storage → Runtime → Runtime
  unfolding load_stored
  restore st r =
      let r' = load_stored st r in
      record r' { engine = (set_rules (registry_rules order r'.registry) r'.engine).0 }

  -- openStorage; `opened` is what Open answers.
  unfoldable pub open_storage : Result Storage → Runtime → Runtime × Option Error
  unfolding restore
  open_storage opened r =
      if c.sqlite_path == ""
      then (r, none)
      else (elim opened [ err e ↦ (r, some e) | ok st ↦ (restore st r, none) ])
