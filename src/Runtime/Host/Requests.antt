-- ===== src/Runtime/Host/Requests.antt =====
-- The requests of a plugin.
use auxitalk.Base.{
  ℕ, ℤ, String, [], ◌∷◌, Option, none, some, Error, Result, ◌==◌, string_eq, if◌then◌else◌, concat,
}
use auxitalk.Types.Value.{Value, str, end, put_field}
use auxitalk.Types.Event.{Event, Time}
use auxitalk.Types.Action.{ActionRequest}
use auxitalk.Rpc.Protocol.{err_internal, err_method_not_found}
use auxitalk.Plugins.Process.Calls.{write_response}
use auxitalk.Plugins.Supervisor.{Supervisor}
use auxitalk.Plugins.Supervisor
use auxitalk.Runtime.Deps.{Runtime}
use auxitalk.Runtime.Publish.{Publisher}
use auxitalk.Runtime.Mutations.{
  Reply, rejected, responded, err_invalid_params, handle_action_request,
}
use auxitalk.Runtime.Host.{Host, announce, report, fill_event}

-- A reply with an action, or with {"ok": true} for `none`.
abbrev pub PluginReply : Type 0
PluginReply = Reply (Option ActionRequest)

abbrev pub with_action : Reply ActionRequest → PluginReply
with_action (rejected code e) = rejected code e
with_action (responded a) = responded (some a)

-- A request: the plugin, its method and what json.Unmarshal makes of the parameters as an event and
-- as an action.
pub record PluginRequest : Type 0 where
  pub plugin_id : String
  pub method : String
  pub event : Option Event
  pub action : Option ActionRequest

module _ (number : ℤ → Value) (time_at : ℕ → Time) (publish : Publisher) where
  unfoldable pub handle_event_emit : String → Option Event → Runtime → Runtime × PluginReply
  unfolding fill_event
  handle_event_emit plugin none r = (r, rejected err_invalid_params "invalid event params")
  handle_event_emit plugin (some e) r =
      let (r1, filled) = fill_event time_at plugin (concat (plugin ∷ "-" ∷ [])) e r in
      let (r2, failed) = publish filled r1 in
      elim failed [ some x ↦ (r2, rejected err_invalid_params x) | none ↦ (r2, responded none) ]

  -- `stopped` is the time that Stop reads.
  unfoldable pub handle_plugin_stop : Time → String → Host → Host × PluginReply
  unfolding announce report Supervisor.stop
  handle_plugin_stop stopped id h =
      let r1 =
        announce number time_at publish (concat (id ∷ "-stop-" ∷ [])) "plugin.stop.requested"
          (put_field "id" (str id) end) h.runtime in
      let (s, (failed, statuses)) = Supervisor.stop stopped id h.supervisor in
      let h' : Host = record h {
        runtime = report number time_at publish statuses r1;
        supervisor = s;
      } in
      elim failed [ some e ↦ (h', rejected err_internal e) | none ↦ (h', responded none) ]

  unfoldable pub handle_plugin_request : Time → PluginRequest → Host → Host × PluginReply
  unfolding handle_event_emit handle_plugin_stop handle_action_request
  handle_plugin_request stopped q h =
      if q.method == "event.emit"
      then (let (r, reply) = handle_event_emit q.plugin_id q.event h.runtime in
          (record h { runtime = r }, reply))
      else if q.method == "action.request"
      then (let (r, reply) = handle_action_request time_at publish q.plugin_id q.action h.runtime in
          (record h { runtime = r }, with_action reply))
      else if q.method == "plugin.stop"
      then handle_plugin_stop stopped q.plugin_id h
      else (h, rejected err_method_not_found "method not found")

  -- Respond and Reject write to the plugin's process; `limit` is its largest payload, `marshalled` the
  -- length of the response's JSON, `write` the error of the write.
  unfoldable pub answer_plugin :
      ℤ
      → (marshalled : PluginReply → Result ℕ) → (write : Option Error) → Time
      → PluginRequest
      → Host
      → Host × Option Error
  unfolding handle_plugin_request write_response
  answer_plugin limit marshalled write stopped q h =
      let (h', reply) = handle_plugin_request stopped q h in
      (
        h',
        write_response limit (marshalled reply) (Supervisor.is_running q.plugin_id h'.supervisor)
            write,
      )
