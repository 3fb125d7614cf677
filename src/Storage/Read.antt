-- ===== src/Storage/Read.antt =====
-- The queries of internal/storage/sqlite/store.go. A query is what the database answers to the
-- SELECT before its LIMIT: the rows in the query's order, or an error of it or of reading a row.
use auxitalk.Base.{
  ℕ, ℤ, pos, pos_part, ltb_ℤ, String, List, Option, none, some, Error, Result, ok, err, string_eq,
  if◌then◌else◌,
}
use auxitalk.Base.Lists.{take}
use auxitalk.Base.Map.{lookup}
use auxitalk.Types.Event.{Event}
use auxitalk.Types.Action.{ActionRequest}
use auxitalk.Types.Session.{Session}
use auxitalk.Types.Workflow.{Workflow}
use auxitalk.Storage.{Storage}

abbrev pub Query : Type 0 → Type 0
Query A = List (String × A) → Result (List A)

-- if limit <= 0 { limit = 100 }
unfoldable pub row_limit : ℤ → ℕ
row_limit n = if ltb_ℤ n (pos 1) then 100 else pos_part n

unfoldable pub limited : {A : Type 0} → ℤ → Result (List A) → Result (List A)
unfolding row_limit
limited n (err e) = err e
limited n (ok rows) = ok (take (row_limit n) rows)

unfoldable pub list_events : Query Event → ℤ → Storage → Result (List Event)
unfolding limited
list_events query n s = limited n (query s.events)

unfoldable pub list_actions : Query ActionRequest → ℤ → Storage → Result (List ActionRequest)
unfolding limited
list_actions query n s = limited n (query s.actions)

unfoldable pub list_workflows : Query Workflow → Storage → Result (List Workflow)
list_workflows query s = query s.workflows

unfoldable pub list_sessions : Query Session → ℤ → Storage → Result (List Session)
unfolding limited
list_sessions query n s = limited n (query s.sessions)

-- `failed` is the error of reading the row.
unfoldable pub get_session : (failed : Option Error) → String → Storage → Result Session
get_session failed id s = elim (lookup id s.sessions) [
  | none ↦ err "sql: no rows in result set"
  | some x ↦ elim failed [ some e ↦ err e | none ↦ ok x ]
]
