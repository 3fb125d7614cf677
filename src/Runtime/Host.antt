-- ===== src/Runtime/Host.antt =====
-- The runtime and its plugins: what they report and ask, and how they are loaded and stopped.
pub mod Requests
pub mod Loading
pub mod Fallback
pub mod Unanswered
pub mod Configure
pub mod Kept
pub mod Moved
pub mod Health
mod Tests
use auxitalk.Base.{
  ℕ, suc, ◌+◌, ◌≤◌, ℤ, pos, negsuc, leb, String, Bool, true, false, List, [], ◌∷◌, Option, none,
  some, Error, Result, ok, err, ◌==◌, string_eq, if◌then◌else◌, concat,
}
use auxitalk.Base.Decimal.{decimal}
use auxitalk.Base.Map.{lookup, put}
use auxitalk.Types.Value.{Value, Fields, str, bool, end, put_field}
use auxitalk.Types.Event.{Event, Time, is_zero}
use auxitalk.Plugins.Process.{ProcessStatus}
use auxitalk.Plugins.Supervisor.{Supervisor}
use auxitalk.Capabilities.{Router}
use auxitalk.Runtime.Deps.{Runtime, now, unix_nano}
use auxitalk.Runtime.Publish.{Publisher}

-- the plugin and the name of the capability that a handler calls
abbrev pub Target : Type 0
Target = String × String

pub record Host : Type 0 where
  pub runtime : Runtime
  pub supervisor : Supervisor
  pub router : Router Target

-- an event of the runtime on a plugin, without session, trace and depth
abbrev pub core_event : String → String → Time → Fields → Event
core_event id type created payload = record {
  id = id;
  type = type;
  source = "core.runtime";
  session_id = "";
  trace_id = "";
  depth = pos 0;
  payload = payload;
  created_at = created;
}

unfoldable pub status_type : ProcessStatus → String
status_type s =
    if s.running
    then "plugin.started"
    else if s.last_error == ""
    then "plugin.stopped"
    else "plugin.error"

-- `number` is how an `int` stands in a payload.
module _ (number : ℤ → Value) (time_at : ℕ → Time) (publish : Publisher) where
  -- Publish, with its error dropped, of an event that reads the clock for its id and its time
  unfoldable pub announce : String → String → Fields → Runtime → Runtime
  announce prefix type payload r =
      let (r1, stamp) = now time_at r in
      let (r2, created) = now time_at r1 in
      (publish (core_event (concat (prefix ∷ decimal (unix_nano stamp) ∷ [])) type created payload)
        r2).0

  unfoldable pub handle_plugin_status : ProcessStatus → Runtime → Runtime
  unfolding announce status_type
  handle_plugin_status s r =
      announce (concat (s.id ∷ "-status-" ∷ [])) (status_type s)
        (put_field "lastError" (str s.last_error) (
          put_field "restarts" (number s.restarts)
            (put_field "running" (bool s.running) (put_field "id" (str s.id) end))))
        r

  -- OnStatus, for the statuses of a section
  unfoldable pub report : List ProcessStatus → Runtime → Runtime
  unfolding handle_plugin_status
  report [] r = r
  report (s ∷ ss) r = report ss (handle_plugin_status s r)

  -- failures[id], which is 0 for a missing key
  abbrev pub failures_of : String → List (String × ℕ) → ℕ
  failures_of id failures = elim (lookup id failures) [ none ↦ 0 | some n ↦ n ]

  -- The body of healthLoop for one plugin, whose check ended with `e`.
  unfoldable pub health_visit :
      String → Option Error → List (String × ℕ) → Runtime → List (String × ℕ) × Runtime
  unfolding announce
  health_visit id none failures r = (put id 0 failures, r)
  health_visit id (some e) failures r =
      let n = suc (failures_of id failures) in
      if leb 3 n
      then (
        put id 0 failures,
        announce (concat (id ∷ "-health-" ∷ [])) "plugin.error"
            (put_field "error" (str e)
              (put_field "failures" (number (pos n)) (put_field "id" (str id) end)))
            r,
      )
      else (put id n failures, r)

-- the defaults that EmitEvent and handleEventEmit fill in
unfoldable pub fill_event : (ℕ → Time) → String → String → Event → Runtime → Runtime × Event
fill_event time_at source prefix e r =
    let stamped : Runtime × Event =
      if e.id == ""
      then (
        (now time_at r).0,
        record e { id = concat (prefix ∷ decimal (unix_nano (now time_at r).1) ∷ []) },
      )
      else (r, e) in
    let sourced : Event =
      if e.source == "" then record (stamped.1) { source = source } else stamped.1 in
    if is_zero e.created_at
    then ((now time_at stamped.0).0, record sourced { created_at = (now time_at stamped.0).1 })
    else (stamped.0, sourced)

unfoldable pub emit_event : (ℕ → Time) → Publisher → Event → Runtime → Runtime × Option Error
unfolding fill_event
emit_event time_at publish e r =
    let (r', filled) = fill_event time_at "api" "api-event-" e r in publish filled r'
