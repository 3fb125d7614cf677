-- ===== src/Storage.antt =====
-- internal/storage/sqlite/store.go: the four tables, by their primary key. The database answers a
-- statement with an error or with none; what its engine does to run a statement is not modelled.
pub mod Read
use auxitalk.Base.{
  pos, String, List, [], ◌∷◌, Option, Result, ok, err, none, some, Error, string_eq,
}
use auxitalk.Base.Map.{lookup, put}
use auxitalk.Types.Event.{Event}
use auxitalk.Types.Event
use auxitalk.Types.Action.{ActionRequest}
use auxitalk.Types.Action
use auxitalk.Types.Session.{Session}
use auxitalk.Types.Session
use auxitalk.Types.Workflow.{Workflow}
use auxitalk.Types.Workflow

pub record Storage : Type 0 where
  pub events : List (String × Event)
  pub actions : List (String × ActionRequest)
  pub workflows : List (String × Workflow)
  pub sessions : List (String × Session)
  pub fault : Option Error  -- what the database answers to a write

-- The columns of `events` hold no trace and no depth.
pub event_row : Event → Event
event_row e = record e { trace_id = ""; depth = pos 0 }

-- The columns of `actions` hold no trace and no depth.
unfoldable pub action_row : ActionRequest → ActionRequest
action_row a = record a { trace_id = ""; depth = pos 0 }

-- INSERT OR REPLACE
unfoldable pub save_event : Event → Storage → Storage × Option Error
unfolding event_row
save_event e s = elim (Event.validate e) [
  | some x ↦ (s, some x)
  | none ↦ elim s.fault [
    | some x ↦ (s, some x)
    | none ↦ (record s { events = put e.id (event_row e) s.events }, none)
  ]
]

unfoldable pub save_action : ActionRequest → Storage → Storage × Option Error
unfolding action_row
save_action a s = elim (Action.validate a) [
  | some x ↦ (s, some x)
  | none ↦ elim s.fault [
    | some x ↦ (s, some x)
    | none ↦ (record s { actions = put a.id (action_row a) s.actions }, none)
  ]
]

unfoldable pub save_session : Session → Storage → Storage × Option Error
save_session x s = elim (Session.validate x) [
  | some e ↦ (s, some e)
  | none ↦ elim s.fault [
    | some e ↦ (s, some e)
    | none ↦ (record s { sessions = put x.id x s.sessions }, none)
  ]
]

pub save_workflow : Workflow → Storage → Storage × Option Error
save_workflow w s = elim (Workflow.validate w) [
  | some e ↦ (s, some e)
  | none ↦ elim s.fault [
    | some e ↦ (s, some e)
    | none ↦ (record s { workflows = put w.id w s.workflows }, none)
  ]
]

pub duplicate_workflow : Error
duplicate_workflow = "UNIQUE constraint failed: workflows.id"

-- the loop of ReplaceWorkflows, inside its transaction: INSERT into a table with a primary key
unfoldable pub insert_workflows :
    List Workflow → List (String × Workflow) → Result (List (String × Workflow))
insert_workflows [] table = ok table
insert_workflows (w ∷ ws) table = elim (Workflow.validate w) [
  | some e ↦ err e
  | none ↦ elim (lookup w.id table) [
    | some _ ↦ err duplicate_workflow
    | none ↦ insert_workflows ws (put w.id w table)
  ]
]

-- The transaction is rolled back unless it commits.
unfoldable pub replace_workflows : List Workflow → Storage → Storage × Option Error
unfolding insert_workflows
replace_workflows ws s = elim s.fault [
  | some e ↦ (s, some e)
  | none ↦ elim (insert_workflows ws []) [
    | err e ↦ (s, some e)
    | ok table ↦ (record s { workflows = table }, none)
  ]
]
