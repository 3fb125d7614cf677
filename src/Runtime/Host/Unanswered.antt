-- ===== src/Runtime/Host/Unanswered.antt =====
-- What becomes of the answer to plugin.stop.
use auxitalk.Base.{
  ℕ, ◌+◌, ℤ, pos, ltb_ℤ, String, Bool, false, none, some, Option, Error, Result, ok, err, ◌≡◌, refl,
  ap, ◌∙◌, inl, inr, Bool-cases, Option-cases, List, [], not, if◌then◌else◌, string_eq,
}
use auxitalk.Base.Map.{lookup}
use auxitalk.Base.Map.Range.{lookup-put_same}
use auxitalk.Types.Value.{Value}
use auxitalk.Types.Event.{Time}
use auxitalk.Plugins.Process.{PluginProcess, ProcessStatus, err_not_running}
use auxitalk.Plugins.Process.Calls.{write_response}
use auxitalk.Plugins.Process
use auxitalk.Plugins.Supervisor.{Supervisor}
use auxitalk.Plugins.Supervisor
use auxitalk.Runtime.Publish.{Publisher}
use auxitalk.Runtime.Host.{Host}
use auxitalk.Runtime.Host.Requests.{
  PluginRequest, PluginReply, handle_plugin_request, handle_plugin_stop, answer_plugin,
}

stop-running : (now : Time) (p : PluginProcess) → (Process.stop now p).0.running ≡ false
unfolding Process.stop Process.stop_locked
stop-running now p = elim (Bool-cases p.running) [
  | inl r ↦ ap (λ b. (stopping b).0.running) r
  | inr n ↦ ap (λ b. (stopping b).0.running) n ∙ n
]
  where
    stopping : Bool → PluginProcess × (Option Error × List ProcessStatus)
    stopping b =
        if not b
        then (p, (some err_not_running, []))
        else (let (p', statuses) = Process.stop_locked now p in (p', (none, statuses)))

stop-is_running :
    (now : Time) (id : String) (s : Supervisor)
    → Supervisor.is_running id (Supervisor.stop now id s).0 ≡ false
unfolding Supervisor.stop Supervisor.is_running
stop-is_running now id s = elim (Option-cases (lookup id s.plugins)) [
  | inl absent ↦ rw (Supervisor.stop, absent, Supervisor.is_running, absent) refl
  | inr (p, found) ↦
      rw
        (
          Supervisor.stop,
          found,
          Supervisor.is_running,
          lookup-put_same id (Process.stop now p).0 s.plugins,
        )
        (stop-running now p)
]

write_response-stopped :
    (limit : ℤ) (m : Result ℕ) (w : Option Error)
    → (e : Error) × (write_response limit m false w ≡ some e)
unfolding write_response
write_response-stopped limit (err e) w = (e, refl)
write_response-stopped limit (ok n) w = elim (Bool-cases (ltb_ℤ limit (pos (n + 1)))) [
  | inl large ↦ ("payload too large", rw large refl)
  | inr small ↦ (err_not_running, rw small refl)
]

handle_plugin_stop-is_running :
    (number : ℤ → Value) (time_at : ℕ → Time) (publish : Publisher) (stopped : Time) (id : String)
    (h : Host)
    → Supervisor.is_running id (handle_plugin_stop number time_at publish stopped id h).0.supervisor
      ≡ false
unfolding handle_plugin_stop
handle_plugin_stop-is_running number time_at publish stopped id h =
    elim (Option-cases (Supervisor.stop stopped id h.supervisor).1.0) [
      | inl done ↦ rw (handle_plugin_stop, done) (stop-is_running stopped id h.supervisor)
      | inr (e, failed) ↦ rw (handle_plugin_stop, failed) (stop-is_running stopped id h.supervisor)
    ]

-- A plugin's request to be stopped stops the plugin and gets no answer: the answer, whatever it is, is
-- refused because the plugin does not run any more (or, if it cannot be encoded or is too large, for
-- that).
pub answer_plugin-stop :
    (number : ℤ → Value) (time_at : ℕ → Time) (publish : Publisher) (limit : ℤ)
    (marshalled : PluginReply → Result ℕ) (write : Option Error) (stopped : Time)
    (q : PluginRequest) (h : Host)
    → q.method ≡ "plugin.stop"
    → let r = answer_plugin number time_at publish limit marshalled write stopped q h in
      (Supervisor.is_running q.plugin_id r.0.supervisor ≡ false) × ((e : Error) × (r.1 ≡ some e))
unfolding answer_plugin
answer_plugin-stop number time_at publish limit marshalled write stopped q h m =
    let down : Supervisor.is_running q.plugin_id
          (handle_plugin_request number time_at publish stopped q h).0.supervisor
        ≡ false =
      rw (handle_plugin_request, m)
        (handle_plugin_stop-is_running number time_at publish stopped q.plugin_id h) in
    (
      down,
      rw down (
          write_response-stopped limit
            (marshalled (handle_plugin_request number time_at publish stopped q h).1) write),
    )
