-- ===== src/Runtime/Host/Configure.antt =====
-- ConfigurePlugin, ConfiguredPlugins and PluginStatuses, and the runtime as the API sees it.
use auxitalk.Base.{
  ℕ, ℤ, pos, pos_part, ltb_ℤ, String, Bool, true, false, List, [], ◌∷◌, Option, none, some, Error,
  Result, ok, err, ◌==◌, string_eq, if◌then◌else◌, concat, length, ◌*◌, ◌-◌,
}
use auxitalk.Base.Lists.{drop}
use auxitalk.Base.Map.{put}
use auxitalk.Types.Event.{Time}
use auxitalk.Types.Value.{Value}
use auxitalk.Types.Plugin.{PluginManifest, Capability}
use auxitalk.Config.{PluginConfig}
use auxitalk.Control.Service.{RuntimeApi}
use auxitalk.Plugins.Registry.{ManifestFile}
use auxitalk.Plugins.Supervisor.{Supervisor}
use auxitalk.Plugins.Supervisor
use auxitalk.Workflows.Registry.{Registry}
use auxitalk.Runtime.Deps.{Runtime}
use auxitalk.Runtime.Publish.{Publisher}
use auxitalk.Runtime.Mutations.{approve_action, deny_action}
use auxitalk.Runtime.Reload.{reload_workflows, switch_workflow}
use auxitalk.Runtime.Host.{Host, report, emit_event}

-- the host and the plugins of its configuration
pub record Configured : Type 0 where
  pub host : Host
  pub plugins : List PluginConfig

-- the manifest of a configured plugin, if it has one that can be loaded
unfoldable pub manifest_of : (String → Result ManifestFile) → PluginConfig → Option PluginManifest
manifest_of load p = elim p.inline [
  | some m ↦ some m
  | none ↦
      if p.manifest == ""
      then none
      else (elim (load p.manifest) [ err e ↦ none | ok f ↦ some f.manifest ])
]

unfoldable pub manifest_id : (String → Result ManifestFile) → PluginConfig → String
unfolding manifest_of
manifest_id load p = elim (manifest_of load p) [ none ↦ "" | some m ↦ m.id ]

-- for k, v := range env { Env[k] = v }
unfoldable pub put_env : List (String × String) → List (String × String) → List (String × String)
put_env [] env = env
put_env ((k, v) ∷ changes) env = put_env changes (put k v env)

-- the loop over the configured plugins; `none` if none has the id
unfoldable pub change_first :
    (String → Result ManifestFile)
    → String
    → Bool
    → List (String × String)
    → List PluginConfig
    → Option (List PluginConfig)
unfolding manifest_id put_env
change_first load id on env [] = none
change_first load id on env (p ∷ ps) =
    let rest = change_first load id on env ps in
    if manifest_id load p == id
    then some (record p { enabled = on; env = put_env env p.env } ∷ ps)
    else (elim rest [ none ↦ none | some ps' ↦ some (p ∷ ps') ])

module _ (number : ℤ → Value) (time_at : ℕ → Time) (publish : Publisher) where
  unfoldable pub stop_plugin : Time → String → Host → Host
  unfolding Supervisor.stop report
  stop_plugin stopped id h =
      let (s, (failed, statuses)) = Supervisor.stop stopped id h.supervisor in
      record h { supervisor = s; runtime = report number time_at publish statuses h.runtime }

  unfoldable pub start_plugin : Result ℕ → Time → String → Host → Host
  unfolding Supervisor.start report
  start_plugin spawned started id h =
      let (s, (failed, statuses)) = Supervisor.start spawned started id h.supervisor in
      record h { supervisor = s; runtime = report number time_at publish statuses h.runtime }

  -- `meanwhile` is what happens in the pause of 100 milliseconds.
  unfoldable pub configure_plugin :
      (load : String → Result ManifestFile)
      → (spawned : Result ℕ) → (stopped started : Time) → (meanwhile : Host → Host) → String
      → Bool
      → List (String × String)
      → Configured
      → Configured × Option Error
  unfolding change_first stop_plugin start_plugin
  configure_plugin load spawned stopped started meanwhile id on env c =
      elim (change_first load id on env c.plugins) [
        | none ↦ (c, some (concat ("plugin " ∷ id ∷ " not found in config" ∷ [])))
        | some ps ↦
            let paused : Host =
              if Supervisor.is_running id c.host.supervisor
              then meanwhile (stop_plugin stopped id c.host)
              else c.host in
            let h : Host =
              if on
              then start_plugin spawned started id paused
              else stop_plugin stopped id c.host in
            (record { host = h; plugins = ps }, none)
      ]

-- One item of ConfiguredPlugins: the path, the switch, and id, name, kind and capabilities of the
-- manifest, if there is one.
abbrev pub Item : Type 0
Item = (String × Bool) × Option (String × (String × (String × List Capability)))

unfoldable pub configured_plugins : (String → Result ManifestFile) → List PluginConfig → List Item
unfolding manifest_of
configured_plugins load [] = []
configured_plugins load (p ∷ ps) =
    let item : Option (String × (String × (String × List Capability))) = elim (manifest_of load p) [
      | none ↦ none
      | some m ↦ some (m.id, (m.name, (m.kind, m.capabilities)))
    ] in
    ((p.manifest, p.enabled), item) ∷ configured_plugins load ps

-- Logs of the file with these bytes, which no error stops: the last `limit` of them.
unfoldable pub tail_log : ℤ → List ℕ → List ℕ
tail_log limit bytes =
    let n = if ltb_ℤ limit (pos 1) then 64 * 1024 else pos_part limit in
    drop (length bytes - n) bytes

abbrev with_runtime : {A : Type 0} → Configured → Runtime × A → Configured × A
with_runtime c (r, a) = (record c { host = record (c.host) { runtime = r } }, a)

-- The operations that control.New is given; `read_log` is Logs.
unfoldable pub api :
    (number : ℤ → Value)
    → (ℕ → Time)
    → Publisher
    → (listing order : Registry → Registry) → (load : String → Result ManifestFile)
    → (spawned : Result ℕ) → (stopped started : Time) → (meanwhile : Host → Host)
    → (read_log : ℤ → Result String) → RuntimeApi Configured
unfolding configure_plugin switch_workflow emit_event
api number time_at publish listing order load spawned stopped started meanwhile read_log = record {
  approve_action = λ id c. with_runtime c (approve_action time_at publish id c.host.runtime);
  deny_action = λ id c. with_runtime c (deny_action time_at publish id c.host.runtime);
  reload_workflows = λ ws c. with_runtime c (reload_workflows order ws c.host.runtime);
  enable_workflow = λ id c. with_runtime c (switch_workflow listing order id true c.host.runtime);
  disable_workflow = λ id c. with_runtime c (switch_workflow listing order id false c.host.runtime);
  emit_event = λ e c. with_runtime c (emit_event time_at publish e c.host.runtime);
  configure_plugin = configure_plugin number time_at publish load spawned stopped started meanwhile;
  logs = λ limit c. read_log limit;
}
