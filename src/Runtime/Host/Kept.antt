-- ===== src/Runtime/Host/Kept.antt =====
-- What the runtime's reports on its plugins, their requests and the operations of the API keep.
use auxitalk.Base.{
  ℕ, suc, ℤ, arith, String, List, Option, none, some, Error, refl, inl, inr, ◌==◌, string_eq,
  if-elim, Option-cases, [], ◌∷◌, concat, leb,
}
use auxitalk.Types.Value.{Value, Fields, str, end, put_field}
use auxitalk.Types.Event.{Event, Time}
use auxitalk.Plugins.Process.{ProcessStatus}
use auxitalk.Plugins.Supervisor
use auxitalk.Runtime.Deps.{Runtime, now}
use auxitalk.Runtime.Publish.{Publisher}
use auxitalk.Runtime.Publish.Closed.{IsClosed}
use auxitalk.Runtime.Mutations.Kept.{request-keeps}
use auxitalk.Runtime.Host.{
  Host, announce, handle_plugin_status, report, health_visit, fill_event, emit_event, failures_of,
}
use auxitalk.Runtime.Host.Requests.{
  PluginRequest, PluginReply, handle_event_emit, handle_plugin_stop, handle_plugin_request,
}

module _ (time_at : ℕ → Time) (mode : String) (P : Runtime → Type 0) (c : IsClosed mode P) where
  fill_event-keeps :
      (source prefix : String) (e : Event) (r : Runtime)
      → P r
      → P (fill_event time_at source prefix e r).0
  unfolding fill_event now
  fill_event-keeps source prefix e r p =
      c.framed r _ (ground arith) (ground arith) (ground arith) (ground arith) (ground arith) p

  module _ (publish : Publisher) (keeps : (e : Event) (r : Runtime) → P r → P (publish e r).0) where
    pub emit-keeps : (e : Event) (r : Runtime) → P r → P (emit_event time_at publish e r).0
    unfolding emit_event
    emit-keeps e r p = keeps _ _ (fill_event-keeps "api" "api-event-" e r p)

    module _ (number : ℤ → Value) where
      announce-keeps :
          (prefix type : String) (payload : Fields) (r : Runtime)
          → P r
          → P (announce number time_at publish prefix type payload r)
      unfolding announce now
      announce-keeps prefix type payload r p = keeps _ _ (c.framed r _ refl refl refl refl refl p)

      pub report-keeps :
          (ss : List ProcessStatus) (r : Runtime) → P r → P (report number time_at publish ss r)
      unfolding report handle_plugin_status
      report-keeps [] r p = p
      report-keeps (s ∷ ss) r p = report-keeps ss _ (announce-keeps _ _ _ r p)

      pub health-keeps :
          (id : String) (failed : Option Error) (failures : List (String × ℕ)) (r : Runtime)
          → P r
          → P (health_visit number time_at publish id failed failures r).1
      unfolding health_visit
      health-keeps id none failures r p = p
      health-keeps id (some e) failures r p =
          if-elim {A = List (String × ℕ) × Runtime} (λ x. P x.1)
            (leb 3 (suc (failures_of number time_at publish id failures)))
            (λ _. announce-keeps _ _ _ r p) (λ _. p)

      event_emit-keeps :
          (plugin : String) (decoded : Option Event) (r : Runtime)
          → P r
          → P (handle_event_emit number time_at publish plugin decoded r).0
      unfolding handle_event_emit
      event_emit-keeps plugin none r p = p
      event_emit-keeps plugin (some e) r p = elim (Option-cases (publish filled.1 filled.0).1) [
        | inl n ↦ rw (n, handle_event_emit) published
        | inr (x, m) ↦ rw (m, handle_event_emit) published
      ]
        where
          filled : Runtime × Event
          filled = fill_event time_at plugin (concat (plugin ∷ "-" ∷ [])) e r

          published : P (publish filled.1 filled.0).0
          published = keeps _ _ (fill_event-keeps plugin (concat (plugin ∷ "-" ∷ [])) e r p)

      plugin_stop-keeps :
          (stopped : Time) (id : String) (h : Host)
          → P h.runtime
          → P (handle_plugin_stop number time_at publish stopped id h).0.runtime
      unfolding handle_plugin_stop
      plugin_stop-keeps stopped id h p =
          elim (Option-cases (Supervisor.stop stopped id h.supervisor).1.0) [
            | inl n ↦ rw (n, handle_plugin_stop) reported
            | inr (x, e) ↦ rw (e, handle_plugin_stop) reported
          ]
        where
          reported : P (
              report number time_at publish (Supervisor.stop stopped id h.supervisor).1.1 (
                announce number time_at publish
                  (concat (id ∷ "-stop-" ∷ []))
                  "plugin.stop.requested"
                  (put_field "id" (str id) end)
                  h.runtime))
          reported = report-keeps (Supervisor.stop stopped id h.supervisor).1.1 _ (
              announce-keeps (concat (id ∷ "-stop-" ∷ [])) "plugin.stop.requested"
                (put_field "id" (str id) end) h.runtime p)

      pub plugin_request-keeps :
          (stopped : Time) (q : PluginRequest) (h : Host)
          → P h.runtime
          → P (handle_plugin_request number time_at publish stopped q h).0.runtime
      unfolding handle_plugin_request
      plugin_request-keeps stopped q h p =
          if-elim {A = Host × PluginReply} (λ x. P x.0.runtime) (q.method == "event.emit")
            (λ _. event_emit-keeps q.plugin_id q.event h.runtime p)
            (λ _.
              if-elim {A = Host × PluginReply} (λ x. P x.0.runtime) (q.method == "action.request")
                (λ _. request-keeps time_at mode P c publish keeps q.plugin_id q.action h.runtime p)
                (λ _.
                  if-elim {A = Host × PluginReply} (λ x. P x.0.runtime) (q.method == "plugin.stop")
                    (λ _. plugin_stop-keeps stopped q.plugin_id h p) (λ _. p)))
