-- ===== src/Workflows/Interpolate.antt =====
-- `interpolate` and `interpolateString` of internal/workflows/engine.go
use auxitalk.Base.{String, [], ◌∷◌, concat, replace_all}
use auxitalk.Types.Value.{
  Value, Items, Fields, null, bool, num, str, arr, obj, nil, cons, end, field, sprint,
}
use auxitalk.Types.Event.{Event}
use auxitalk.Types.Session.{Session}

-- for key, value := range event.Payload, in the order of the fields
unfoldable pub replace_payload : Fields → String → String
replace_payload end s = s
replace_payload (field key value m) s = replace_payload m (
    replace_all (replace_all s (concat ("{{payload." ∷ key ∷ "}}" ∷ [])) (sprint value))
      (concat ("{{event.payload." ∷ key ∷ "}}" ∷ [])) (sprint value))

-- for key, value := range session.Metadata
unfoldable pub replace_metadata : Fields → String → String
replace_metadata end s = s
replace_metadata (field key value m) s =
    replace_metadata m
      (replace_all s (concat ("{{session.metadata." ∷ key ∷ "}}" ∷ [])) (sprint value))

unfoldable pub replace_event : Event → String → String
replace_event event s =
    replace_all
      (replace_all (replace_all (replace_all s "{{event.id}}" event.id) "{{event.type}}" event.type)
        "{{event.source}}" event.source)
      "{{event.sessionId}}" event.session_id

unfoldable pub replace_session : Session → String → String
replace_session session s =
    replace_all (replace_all s "{{session.id}}" session.id) "{{session.state}}" session.state

unfoldable pub interpolate_string : String → Event → Session → String
unfolding replace_event replace_session replace_payload replace_metadata
interpolate_string s event session =
    replace_metadata session.metadata
      (replace_session session (replace_payload event.payload (replace_event event s)))

mutual
  pub interpolate : Value → Event → Session → Value
  interpolate (str s) event session = str (interpolate_string s event session)
  interpolate (obj m) event session = obj (interpolate_fields m event session)
  interpolate (arr xs) event session = arr (interpolate_items xs event session)
  interpolate null event session = null
  interpolate (bool b) event session = bool b
  interpolate (num n) event session = num n

  pub interpolate_items : Items → Event → Session → Items
  interpolate_items nil event session = nil
  interpolate_items (cons v xs) event session =
      cons (interpolate v event session) (interpolate_items xs event session)

  pub interpolate_fields : Fields → Event → Session → Fields
  interpolate_fields end event session = end
  interpolate_fields (field k v m) event session =
      field k (interpolate v event session) (interpolate_fields m event session)
