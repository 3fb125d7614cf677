-- ===== src/Control/Streams.antt =====
-- eventsStream, actionsStream and logStream of internal/control/server.go, as what they write for
-- what they read in each round; the client leaves after the last round.
use auxitalk.Base.{
  ℕ, String, List, [], ◌∷◌, Error, Result, ok, err, ◌==◌, string_eq, nat_eq, if◌then◌else◌, length,
  replace_all,
}
use auxitalk.Types.Event.{Event}
use auxitalk.Types.Action.{ActionRequest}

-- "data: …", with the JSON of the value; ": heartbeat"; "event: error"
pub data Chunk (A : Type 0) : Type 0 where
  value : A → Chunk A
  heartbeat : Chunk A
  failed : Error → Chunk A

-- The ticker comes before the next round, if there is one.
unfoldable pub before_next : {A B : Type 0} → List B → List (Chunk A) → List (Chunk A)
before_next [] chunks = []
before_next (r ∷ rounds) chunks = heartbeat ∷ chunks

-- events[len(events)-1].ID, or `last` if there are no events
unfoldable pub latest_id : String → List Event → String
latest_id last [] = last
latest_id last (e ∷ es) = latest_id e.id es

unfoldable pub events_stream : (last : String) → List (List Event) → List (Chunk (List Event))
unfolding before_next latest_id
events_stream last [] = []
events_stream last (events ∷ rounds) =
    let latest = latest_id last events in
    let more = before_next rounds (events_stream latest rounds) in
    if latest == last then more else value events ∷ more

unfoldable pub actions_stream :
    (last : ℕ) → List (List ActionRequest) → List (Chunk (List ActionRequest))
unfolding before_next
actions_stream last [] = []
actions_stream last (actions ∷ rounds) =
    let more = before_next rounds (actions_stream (length actions) rounds) in
    if length actions == last then more else value actions ∷ more

unfoldable pub log_chunks : (last : String) → List (Result String) → List (Chunk String)
unfolding before_next
log_chunks last [] = []
log_chunks last (err e ∷ rounds) = failed (replace_all e "\n" " ") ∷ []
log_chunks last (ok content ∷ rounds) =
    let more = before_next rounds (log_chunks content rounds) in
    if content == last then more else value content ∷ more
