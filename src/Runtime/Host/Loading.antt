-- ===== src/Runtime/Host/Loading.antt =====
-- Loading the configured plugins, and the shutdown.
use auxitalk.Base.{
  ℕ, ℤ, pos, String, List, [], ◌∷◌, Option, none, some, Error, Result, ok, err, ◌==◌, string_eq,
  not, if◌then◌else◌, has_prefix, ◌||◌,
}
use auxitalk.Types.Value.{Value}
use auxitalk.Types.Event.{Time}
use auxitalk.Types.Plugin.{PluginManifest, Capability}
use auxitalk.Config.{Config, PluginConfig}
use auxitalk.Workflows.Registry.{Registry}
use auxitalk.Runtime.Restore.{new_runtime}
use auxitalk.Capabilities.{Router, register_capability}
use auxitalk.Plugins.Registry.{ManifestFile}
use auxitalk.Plugins.Process.{ProcessSpec}
use auxitalk.Plugins.Process.Calls.{Surroundings}
use auxitalk.Plugins.Supervisor.{Supervisor, new_supervisor}
use auxitalk.Plugins.Supervisor
use auxitalk.Runtime.Publish.{Publisher}
use auxitalk.Runtime.Host.{Host, Target, report}

-- New, with the options of its supervisor
unfoldable pub new_host : (order : Registry → Registry) → Config → Option Host
unfolding new_runtime
new_host order c = elim (new_runtime order c) [
  | none ↦ none
  | some r ↦ some (record {
    runtime = r;
    supervisor = new_supervisor (record {
      call_timeout = c.runtime.request_timeout;
      health_interval = pos 30_000_000_000;
      restart_backoff = pos 1_000_000_000;
      max_restarts = pos 3;
      max_health_failures = pos 3;
      max_payload_size = c.runtime.max_payload_size;
    });
    router = [];
  })
]

-- The surroundings: LoadManifest, filepath.Join, ResolvedEnv, the start of a process, and what the
-- call of a plugin meets at the shutdown. A path is absolute on Unix.
pub record Machine : Type 0 where
  pub load : String → Result ManifestFile
  pub join : String → String → String
  pub env : PluginConfig → List String
  pub spawn : ProcessSpec → Result ℕ
  pub meets : String → Surroundings

-- the process of a manifest
unfoldable pub spec_of : Machine → PluginConfig → ManifestFile → ProcessSpec
spec_of m c f =
    let command = f.manifest.runtime in
    let entry = f.manifest.entry in
    record {
      id = f.manifest.id;
      command =
          if not (entry == "") || has_prefix command "/" then command else m.join f.dir command;
      args =
          if entry == ""
          then []
          else if has_prefix entry "/"
          then entry ∷ []
          else m.join f.dir entry ∷ [];
      dir = f.dir;
      env = m.env c;
    }

-- the loop over the capabilities; a handler calls the plugin with the capability's name
unfoldable pub add_capabilities :
    PluginManifest → List Capability → Router Target → Router Target × Option Error
add_capabilities manifest [] r = (r, none)
add_capabilities manifest (c ∷ cs) r =
    let (r', failed) =
      register_capability manifest.id manifest c.name (some (manifest.id, c.name)) r in
    elim failed [ some e ↦ (r', some e) | none ↦ add_capabilities manifest cs r' ]

module _ (number : ℤ → Value) (time_at : ℕ → Time) (publish : Publisher) (machine : Machine) where
  abbrev with_capabilities : Host → Router Target × Option Error → Host × Option Error
  with_capabilities h (r, failed) = (record h { router = r }, failed)

  -- loadPlugins for one loaded manifest; `started` is the time that Start reads.
  unfoldable pub launch : Time → PluginConfig → ManifestFile → Host → Host × Option Error
  unfolding spec_of add_capabilities report Supervisor.register Supervisor.start
  launch started c f h =
      let spec = spec_of machine c f in
      let (s1, refused) = Supervisor.register spec h.supervisor in
      elim refused [
        | some e ↦ (h, some e)
        | none ↦
            (let (s2, (failed, statuses)) =
                Supervisor.start (machine.spawn spec) started f.manifest.id s1 in
              let h' : Host = record h {
                supervisor = s2;
                runtime = report number time_at publish statuses h.runtime;
              } in
              elim failed [
                | some e ↦ (h', some e)
                | none ↦
                    with_capabilities h'
                      (add_capabilities f.manifest f.manifest.capabilities h.router)
              ])
      ]

  unfoldable pub load_plugin : Time → PluginConfig → Host → Host × Option Error
  unfolding launch
  load_plugin started c h =
      if not c.enabled || c.manifest == ""
      then (h, none)
      else (elim (machine.load c.manifest) [ err e ↦ (h, some e) | ok f ↦ launch started c f h ])

  unfoldable pub load_plugins : Time → List PluginConfig → Host → Host × Option Error
  unfolding load_plugin
  load_plugins started [] h = (h, none)
  load_plugins started (c ∷ cs) h =
      let (h', failed) = load_plugin started c h in
      elim failed [ some e ↦ (h', some e) | none ↦ load_plugins started cs h' ]

  -- The supervisor after the call of plugin.stop, whose result is dropped. `meets` is of calls that
  -- return: at a write that never ends, the shutdown would not go on.
  unfoldable pub ask_to_stop : String → Supervisor → Supervisor
  unfolding Supervisor.call
  ask_to_stop id s = elim (Supervisor.call (machine.meets id) id s) [ none ↦ s | some (s', r) ↦ s' ]

  -- The loop of shutdown over the ids of List; the errors of Stop are only printed.
  unfoldable pub stop_plugins : Time → List String → Host → Host
  unfolding ask_to_stop report Supervisor.stop
  stop_plugins stopped [] h = h
  stop_plugins stopped (id ∷ ids) h =
      let (s, (failed, statuses)) = Supervisor.stop stopped id (ask_to_stop id h.supervisor) in
      stop_plugins stopped ids
        (record h { supervisor = s; runtime = report number time_at publish statuses h.runtime })
