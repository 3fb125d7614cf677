-- ===== src/Runtime/Deps.antt =====
-- The state of the runtime, its clock and the parts of its handlers that do not publish.
pub mod Frame
use auxitalk.Base.{
  ℕ, suc, ◌-◌, ◌*◌, String, List, [], ◌∷◌, ◌++◌, Option, none, some, Error, ok, err, ◌==◌,
  string_eq, if◌then◌else◌, concat,
}
use auxitalk.Base.Decimal.{decimal}
use auxitalk.Types.Value.{end}
use auxitalk.Types.Event.{Event, Time, is_zero}
use auxitalk.Types.Action.{ActionRequest, requested}
use auxitalk.Types.Session.{Session}
use auxitalk.Actions.Store.{Store}
use auxitalk.Events.Bus.{Bus}
use auxitalk.Sessions.{Manager}
use auxitalk.Sessions
use auxitalk.Storage.{Storage, save_event, save_action, save_session}
use auxitalk.Workflows.Engine.{Engine}
use auxitalk.Workflows.Registry.{Registry}

-- the handlers that Run subscribes to all events
pub data Handler : Type 0 where
  persistence workflow tracking : Handler

pub record Runtime : Type 0 where
  pub mode : String
  pub bus : Bus Handler
  pub actions : Store
  pub registry : Registry
  pub engine : Engine
  pub sessions : Manager
  pub storage : Option Storage
  pub reads : ℕ  -- how often the clock has been read
  pub running : List ActionRequest

-- t.UnixNano(), for times after 1970
abbrev pub unix_nano : Time → ℕ
unix_nano t = t - 62_135_596_800 * 1_000_000_000

unfoldable pub persist_action : ActionRequest → Runtime → Runtime
persist_action a r = elim r.storage [
  | none ↦ r
  | some st ↦ record r { storage = some (save_action a st).0 }
]

unfoldable pub handle_persistence : Event → Runtime → Runtime × Option Error
handle_persistence e r = elim r.storage [
  | none ↦ (r, none)
  | some st ↦ (record r { storage = some (save_event e st).0 }, (save_event e st).1)
]

unfoldable pub execute_async : ActionRequest → Runtime → Runtime
execute_async a r = record r { running = r.running ++ a ∷ [] }

-- `time_at n` is what the n-th read of the clock finds.
module _ (time_at : ℕ → Time) where
  -- time.Now()
  unfoldable pub now : Runtime → Runtime × Time
  now r = (record r { reads = suc r.reads }, time_at r.reads)

  -- the defaults that RequestAction and handleActionRequest fill in
  unfoldable pub fill_id : String → Runtime × ActionRequest → Runtime × ActionRequest
  unfolding now
  fill_id prefix (r, a) =
      if a.id == ""
      then ((now r).0, record a { id = concat (prefix ∷ decimal (unix_nano (now r).1) ∷ []) })
      else (r, a)

  unfoldable pub fill_created : Runtime × ActionRequest → Runtime × ActionRequest
  unfolding now
  fill_created (r, a) =
      if is_zero a.created_at then ((now r).0, record a { created_at = (now r).1 }) else (r, a)

  unfoldable pub fill_source : String → ActionRequest → ActionRequest
  fill_source source a = if a.source == "" then record a { source = source } else a

  unfoldable pub fill_status : ActionRequest → ActionRequest
  fill_status a = if a.status == "" then record a { status = requested } else a

  unfoldable pub fill_defaults : String → String → ActionRequest → Runtime → Runtime × ActionRequest
  unfolding fill_id fill_created fill_source fill_status
  fill_defaults source prefix a r =
      let (r', b) = fill_id prefix (r, fill_source source a) in fill_created (r', fill_status b)

  -- the session that handleSessionTracking starts
  pub started_session : Event → Time → Time → Session
  started_session e created updated = record {
    id = e.session_id;
    channel = e.source;
    participants = [];
    messages = [];
    state = "active";
    metadata = end;
    created_at = created;
    updated_at = updated;
  }

  unfoldable pub store_session : Session → Runtime → Runtime
  store_session s r = elim r.storage [
    | none ↦ r
    | some st ↦ record r { storage = some (save_session s st).0 }
  ]

  unfoldable pub handle_tracking : Event → Runtime → Runtime × Option Error
  unfolding now started_session store_session
  handle_tracking e r =
      if e.session_id == "" then (r, none) else (elim (Sessions.get e.session_id r.sessions) [
        | err _ ↦
            let (r1, created) = now r in
            let (r2, updated) = now r1 in
            let s = started_session e created updated in
            let (m, failed) = Sessions.create s r2.sessions in
            (elim failed [
              | some x ↦ (r2, some x)
              | none ↦ (store_session s (record r2 { sessions = m }), none)
            ])
        | ok s ↦
            let (r1, updated) = now r in
            let s' = record s { updated_at = updated } in
            (store_session s' (record r1 { sessions = (Sessions.update s' r1.sessions).0 }), none)
      ])
