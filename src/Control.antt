-- ===== src/Control.antt =====
-- internal/control/server.go: the API over HTTP. A request has a path that ServeMux need not clean;
-- what json.Decode makes of its body is a part of it.
pub mod Service
pub mod ReadOnly
pub mod Streams
pub mod Paths
pub mod Approvals
mod Tests
use Prim.Native.Char.{code}
use Prim.Native.String
use auxitalk.Base.{
  ℕ, ◌*◌, ℤ, pos, ltb_ℤ, String, Bool, List, [], ◌∷◌, Option, none, some, Error, Result, ok, err,
  ◌==◌, string_eq, nat_eq, if◌then◌else◌, has_prefix, trim_prefix,
}
use auxitalk.Types.Event.{Event}
use auxitalk.Types.Action.{ActionRequest}
use auxitalk.Types.Workflow.{Workflow}
use auxitalk.Control.Service.{RuntimeApi}

pub record PluginChange : Type 0 where
  pub id : String
  pub enabled : Bool
  pub env : List (String × String)

pub record Request : Type 0 where
  pub method : String
  pub path : String
  pub limit : String  -- the parameter `limit` of the query, "" if there is none
  pub limit_value : Option ℤ  -- what strconv.ParseInt makes of it
  pub event_body : Result Event
  pub workflows_body : Result (List Workflow)
  pub plugin_body : Result PluginChange

pub data Answer : Type 0 where
  failure : (status : ℕ) → Error → Answer
  no_content : Answer
  done : Answer  -- {"ok": true}
  emitted : (id : String) → Answer
  action : ActionRequest → Answer
  log_text : String → Answer
  healthy status plugins events actions workflows : Answer  -- read from the runtime
  stream : Answer

abbrev pub not_found : Answer
not_found = failure 404 "404 page not found"

abbrev pub not_allowed : Answer
not_allowed = failure 405 "method not allowed"

-- strings.Split(s, "/")
unfoldable pub split_slash : String → List String
split_slash String.[] = "" ∷ []
split_slash (String.◌∷◌ c s) =
    let rest = split_slash s in
    if code c == 47
    then "" ∷ rest
    else elim rest [ [] ↦ String.◌∷◌ c "" ∷ [] | p ∷ ps ↦ String.◌∷◌ c p ∷ ps ]

-- the id and the operation of a path behind `prefix`, if it has two parts
unfoldable pub two_parts : List String → Option (String × String)
two_parts [] = none
two_parts (a ∷ []) = none
two_parts (a ∷ (b ∷ [])) = some (a, b)
two_parts (a ∷ (b ∷ (c ∷ ps))) = none

unfoldable pub operation : String → Request → Option (String × String)
unfolding split_slash two_parts
operation prefix r = two_parts (split_slash (trim_prefix r.path prefix))

-- parseLogLimit
unfoldable pub parse_log_limit : Request → Option ℤ
parse_log_limit r =
    if r.limit == ""
    then some (pos (64 * 1024))
    else elim r.limit_value [ none ↦ none | some n ↦ if ltb_ℤ n (pos 0) then none else some n ]

module _ {S : Type 0} (service : RuntimeApi S) where
  -- the answer to an error of the runtime, and to none
  abbrev pub finish : Answer → S × Option Error → S × Answer
  finish a (s, none) = (s, a)
  finish a (s, some e) = (s, failure 400 e)

  abbrev pub finish_action : S × Result ActionRequest → S × Answer
  finish_action (s, ok a) = (s, action a)
  finish_action (s, err e) = (s, failure 400 e)

  unfoldable pub configure_plugin : Request → S → S × Answer
  configure_plugin r s =
      if r.method == "POST"
      then (elim r.plugin_body [
        | err e ↦ (s, failure 400 e)
        | ok c ↦ finish done (service.configure_plugin c.id c.enabled c.env s)
      ])
      else (s, not_allowed)

  -- The id that is answered is the one in the body.
  unfoldable pub events_route : Request → S → S × Answer
  events_route r s =
      if r.method == "POST"
      then (elim r.event_body [
        | err e ↦ (s, failure 400 e)
        | ok event ↦ finish (emitted event.id) (service.emit_event event s)
      ])
      else (s, events)

  unfoldable pub reload_workflows : Request → S → S × Answer
  reload_workflows r s =
      if r.method == "POST"
      then (elim r.workflows_body [
        | err e ↦ (s, failure 400 e)
        | ok ws ↦ finish done (service.reload_workflows ws s)
      ])
      else (s, not_allowed)

  unfoldable pub workflow_operation : Option (String × String) → S → S × Answer
  workflow_operation none s = (s, not_found)
  workflow_operation (some (id, op)) s =
      if op == "enable"
      then finish done (service.enable_workflow id s)
      else if op == "disable"
      then finish done (service.disable_workflow id s)
      else (s, not_found)

  unfoldable pub workflow_mutation : Request → S → S × Answer
  unfolding workflow_operation operation
  workflow_mutation r s =
      if r.method == "POST"
      then workflow_operation (operation "/api/workflows/" r) s
      else (s, not_allowed)

  unfoldable pub action_operation : Option (String × String) → S → S × Answer
  action_operation none s = (s, not_found)
  action_operation (some (id, op)) s =
      if op == "approve"
      then finish_action (service.approve_action id s)
      else if op == "deny"
      then finish_action (service.deny_action id s)
      else (s, not_found)

  unfoldable pub action_mutation : Request → S → S × Answer
  unfolding action_operation operation
  action_mutation r s =
      if r.method == "POST"
      then action_operation (operation "/api/actions/" r) s
      else (s, not_allowed)

  unfoldable pub logs : Request → S → S × Answer
  unfolding parse_log_limit
  logs r s = elim (parse_log_limit r) [
    | none ↦ (s, failure 400 "invalid limit")
    | some n ↦ elim (service.logs n s) [ err e ↦ (s, failure 500 e) | ok t ↦ (s, log_text t) ]
  ]

  unfoldable pub log_stream : Request → S → S × Answer
  unfolding parse_log_limit
  log_stream r s = elim (parse_log_limit r) [
    | none ↦ (s, failure 400 "invalid limit")
    | some n ↦ (s, stream)
  ]

  -- the patterns that New registers, with the longer of two that fit
  unfoldable pub route_tree : Request → S → S × Answer
  unfolding workflow_mutation action_mutation
  route_tree r s =
      if has_prefix r.path "/api/actions/"
      then action_mutation r s
      else if has_prefix r.path "/api/workflows/"
      then workflow_mutation r s
      else (s, not_found)

  unfoldable pub route_read : Request → S → S × Answer
  unfolding route_tree logs log_stream
  route_read r s =
      if r.path == "/health"
      then (s, healthy)
      else if r.path == "/api/status"
      then (s, status)
      else if r.path == "/api/plugins"
      then (s, plugins)
      else if r.path == "/api/events/stream"
      then (s, stream)
      else if r.path == "/api/actions"
      then (s, actions)
      else if r.path == "/api/actions/stream"
      then (s, stream)
      else if r.path == "/api/workflows"
      then (s, workflows)
      else if r.path == "/api/logs"
      then logs r s
      else if r.path == "/api/logs/stream"
      then log_stream r s
      else route_tree r s

  unfoldable pub route : Request → S → S × Answer
  unfolding route_read configure_plugin events_route reload_workflows
  route r s =
      if r.path == "/api/plugins/configure"
      then configure_plugin r s
      else if r.path == "/api/events"
      then events_route r s
      else if r.path == "/api/workflows/reload"
      then reload_workflows r s
      else route_read r s

  -- withCORS
  unfoldable pub serve : Request → S → S × Answer
  unfolding route
  serve r s = if r.method == "OPTIONS" then (s, no_content) else route r s
