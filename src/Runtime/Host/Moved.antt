-- ===== src/Runtime/Host/Moved.antt =====
-- What starting, stopping, loading and configuring plugins keep.
use auxitalk.Base.{
  ℕ, ℤ, String, Bool, not, List, Option, Error, Result, inl, inr, ◌==◌, string_eq, if-elim,
  Option-cases, [], ◌∷◌, ◌||◌, Result-cases, if◌then◌else◌,
}
use auxitalk.Types.Value.{Value}
use auxitalk.Types.Event.{Event, Time}
use auxitalk.Config.{PluginConfig}
use auxitalk.Plugins.Registry.{ManifestFile}
use auxitalk.Plugins.Process.{ProcessStatus}
use auxitalk.Plugins.Supervisor.{Supervisor}
use auxitalk.Plugins.Supervisor
use auxitalk.Runtime.Deps.{Runtime}
use auxitalk.Runtime.Publish.{Publisher}
use auxitalk.Runtime.Publish.Closed.{IsClosed}
use auxitalk.Runtime.Host.{Host, report}
use auxitalk.Runtime.Host.Kept.{report-keeps}
use auxitalk.Runtime.Host.Configure.{
  Configured, change_first, stop_plugin, start_plugin, configure_plugin,
}
use auxitalk.Runtime.Host.Loading.{
  Machine, ask_to_stop, stop_plugins, launch, load_plugin, load_plugins, spec_of,
}

module _ (time_at : ℕ → Time) (mode : String) (P : Runtime → Type 0) (c : IsClosed mode P)
    (publish : Publisher) (keeps : (e : Event) (r : Runtime) → P r → P (publish e r).0)
    (number : ℤ → Value) where
  reported : (ss : List ProcessStatus) (r : Runtime) → P r → P (report number time_at publish ss r)
  reported = report-keeps time_at mode P c publish keeps number

  stop-keeps :
      (stopped : Time) (id : String) (h : Host)
      → P h.runtime
      → P (stop_plugin number time_at publish stopped id h).runtime
  unfolding stop_plugin
  stop-keeps stopped id h p = reported (Supervisor.stop stopped id h.supervisor).1.1 h.runtime p

  start-keeps :
      (spawned : Result ℕ) (started : Time) (id : String) (h : Host)
      → P h.runtime
      → P (start_plugin number time_at publish spawned started id h).runtime
  unfolding start_plugin
  start-keeps spawned started id h p =
      reported (Supervisor.start spawned started id h.supervisor).1.1 h.runtime p

  pub configure-keeps :
      (load : String → Result ManifestFile) (spawned : Result ℕ) (stopped started : Time)
      (meanwhile : Host → Host) (id : String) (on : Bool) (env : List (String × String))
      (x : Configured)
      → ((h : Host) → P h.runtime → P (meanwhile h).runtime)
      → P x.host.runtime
      → P
          (configure_plugin number time_at publish load spawned stopped started meanwhile id on env
            x).0.host.runtime
  unfolding configure_plugin
  configure-keeps load spawned stopped started meanwhile id on env x quiet p =
      elim (Option-cases (change_first load id on env x.plugins)) [
        | inl n ↦ rw (n, configure_plugin) p
        | inr (ps, e) ↦
            rw (e, configure_plugin)
              (if-elim {A = Host} (λ h. P h.runtime) on
                (λ _. start-keeps spawned started id paused quietly)
                (λ _. stop-keeps stopped id x.host p))
      ]
    where
      paused : Host
      paused =
          if Supervisor.is_running id x.host.supervisor
          then meanwhile (stop_plugin number time_at publish stopped id x.host)
          else x.host

      quietly : P paused.runtime
      quietly =
          if-elim {A = Host} (λ h. P h.runtime) (Supervisor.is_running id x.host.supervisor)
            (λ _. quiet _ (stop-keeps stopped id x.host p)) (λ _. p)

  module _ (machine : Machine) where
    pub stop_plugins-keeps :
        (stopped : Time) (ids : List String) (h : Host)
        → P h.runtime
        → P (stop_plugins number time_at publish machine stopped ids h).runtime
    unfolding stop_plugins
    stop_plugins-keeps stopped [] h p = p
    stop_plugins-keeps stopped (id ∷ ids) h p =
        let x =
          Supervisor.stop stopped id (ask_to_stop number time_at publish machine id h.supervisor) in
        stop_plugins-keeps stopped ids
          (record h { supervisor = x.0; runtime = report number time_at publish x.1.1 h.runtime })
          (reported x.1.1 h.runtime p)

    launch-keeps :
        (started : Time) (x : PluginConfig) (f : ManifestFile) (h : Host)
        → P h.runtime
        → P (launch number time_at publish machine started x f h).0.runtime
    unfolding launch
    launch-keeps started x f h p = elim (Option-cases registered.1) [
      | inr (e, q) ↦ rw (q, launch) p
      | inl n ↦ elim (Option-cases begun.1.0) [
        | inr (e, q) ↦ rw (n, launch, q) (reported begun.1.1 h.runtime p)
        | inl m ↦ rw (n, launch, m) (reported begun.1.1 h.runtime p)
      ]
    ]
      where
        registered : Supervisor × Option Error
        registered = Supervisor.register (spec_of machine x f) h.supervisor

        begun : Supervisor × (Option Error × List ProcessStatus)
        begun =
            Supervisor.start (machine.spawn (spec_of machine x f)) started f.manifest.id
              registered.0

    load_plugin-keeps :
        (started : Time) (x : PluginConfig) (h : Host)
        → P h.runtime
        → P (load_plugin number time_at publish machine started x h).0.runtime
    unfolding load_plugin
    load_plugin-keeps started x h p =
        if-elim {A = Host × Option String} (λ y. P y.0.runtime) (not x.enabled || x.manifest == "")
          (λ _. p)
          (λ _. elim (Result-cases (machine.load x.manifest)) [
            | inl (e, q) ↦ rw q p
            | inr (f, q) ↦ rw q (launch-keeps started x f h p)
          ])

    pub load_plugins-keeps :
        (started : Time) (xs : List PluginConfig) (h : Host)
        → P h.runtime
        → P (load_plugins number time_at publish machine started xs h).0.runtime
    unfolding load_plugins
    load_plugins-keeps started [] h p = p
    load_plugins-keeps started (x ∷ xs) h p =
        elim (Option-cases (load_plugin number time_at publish machine started x h).1) [
          | inl n ↦
              rw (n, load_plugins)
                (load_plugins-keeps started xs _ (load_plugin-keeps started x h p))
          | inr (e, q) ↦ rw (q, load_plugins) (load_plugin-keeps started x h p)
        ]
