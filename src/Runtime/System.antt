-- ===== src/Runtime/System.antt =====
-- The daemon as a whole: what reaches it from the API, from its plugins and from the executions it
-- has started, in any order, one after the other.
pub mod Ledger
pub mod Kept
pub mod Refines
pub mod Boot
pub mod Begun
pub mod Whole
pub mod Approved
pub mod Consistent
mod Tests
use auxitalk.Base.{ℕ, suc, ℤ, String, List, [], ◌∷◌, ◌++◌, Option, Error, Result}
use auxitalk.Types.Value.{Value, Fields}
use auxitalk.Types.Event.{Time}
use auxitalk.Types.Action.{ActionRequest}
use auxitalk.Config.{PluginConfig}
use auxitalk.Control.{Request, serve}
use auxitalk.Control.Approvals.{approved_by}
use auxitalk.Plugins.Process.{ProcessStatus}
use auxitalk.Plugins.Registry.{ManifestFile}
use auxitalk.Rpc.Protocol.{Raw}
use auxitalk.Workflows.Executor.{MockExecutor}
use auxitalk.Workflows.Registry.{Registry}
use auxitalk.Runtime.Deps.{Handler}
use auxitalk.Runtime.Publish.{publish_at}
use auxitalk.Runtime.Publish.{Publisher}
use auxitalk.Runtime.Host.{Host, Target, report, health_visit}
use auxitalk.Runtime.Host.Requests.{PluginRequest, handle_plugin_request}
use auxitalk.Runtime.Host.Fallback.{execute_and_complete}
use auxitalk.Runtime.Host.Loading.{Machine, load_plugins, stop_plugins}
use auxitalk.Runtime.Host.Configure.{Configured, api}

-- The daemon with the engine's executor and the failures that healthLoop counts.
pub record Daemon : Type 0 where
  pub configured : Configured
  pub executor : Option MockExecutor
  pub failures : List (String × ℕ)

-- What a request of the API meets: the manifests, the start of a process, the times, what the
-- plugins report in the pause of ConfigurePlugin, and the log.
pub record Meets : Type 0 where
  pub load : String → Result ManifestFile
  pub spawned : Result ℕ
  pub stopped : Time
  pub started : Time
  pub paused : List ProcessStatus
  pub read_log : ℤ → Result String

-- What the run of an action meets.
pub record RunMeets : Type 0 where
  pub decode : Raw → Result Value
  pub invoke : Target → Fields → Raw × Option Error
  pub expiry : Option Error
  pub time : Time
  pub stamp : Time
  pub created : Time
  pub ended : Time

pub data Input : Type 0 where
  asked : Meets → Request → Input  -- a request to the API
  plugin_asked : Time → PluginRequest → Input
  ran : RunMeets → ActionRequest → Input  -- the goroutine of an action, from its start to its end
  reported : List ProcessStatus → Input  -- OnStatus of the supervisor
  checked : String → Option Error → Input  -- a health check of a plugin
  loaded : Machine → Time → List PluginConfig → Input
  shut_down : Machine → Time → List String → Input

-- the ids that the user approves
unfoldable pub approval_of : Input → List String
approval_of (asked m r) = approved_by r
approval_of (plugin_asked t q) = []
approval_of (ran m a) = []
approval_of (reported ss) = []
approval_of (checked id e) = []
approval_of (loaded m t ps) = []
approval_of (shut_down m t ids) = []

unfoldable pub approvals_of : List Input → List String
unfolding approval_of
approvals_of [] = []
approvals_of (i ∷ is) = approval_of i ++ approvals_of is

abbrev pub with_host : Daemon → Host → Daemon
with_host d h = record d { configured = record (d.configured) { host = h } }

module _ (number : ℤ → Value) (time_at : ℕ → Time)
    (order wild_order : List (ℕ × Handler) → List (ℕ × Handler)) (nesting : ℕ)
    (listing rules_order : Registry → Registry) where
  abbrev pub publish : Publisher
  publish = publish_at time_at order wild_order nesting

  unfoldable pub pause : Meets → Host → Host
  pause m h = record h { runtime = report number time_at publish m.paused h.runtime }

  unfoldable pub ask : Meets → Request → Configured → Configured
  unfolding pause
  ask m r c =
      (serve
        (api number time_at publish listing rules_order m.load m.spawned m.stopped m.started
          (pause m) m.read_log)
        r c).0

  unfoldable pub step : Input → Daemon → Daemon
  unfolding ask
  step (asked m r) d = record d { configured = ask m r d.configured }
  step (plugin_asked t q) d =
      with_host d (handle_plugin_request number time_at publish t q d.configured.host).0
  step (ran m a) d =
      let (x, h) =
        execute_and_complete time_at publish m.decode m.invoke m.expiry m.time m.stamp m.created
          m.ended a d.executor d.configured.host in
      record (with_host d h) { executor = x }
  step (reported ss) d =
      let h = d.configured.host in
      with_host d (record h { runtime = report number time_at publish ss h.runtime })
  step (checked id e) d =
      let h = d.configured.host in
      let (failures, r) = health_visit number time_at publish id e d.failures h.runtime in
      record (with_host d (record h { runtime = r })) { failures = failures }
  step (loaded m t ps) d =
      with_host d (load_plugins number time_at publish m t ps d.configured.host).0
  step (shut_down m t ids) d =
      with_host d (stop_plugins number time_at publish m t ids d.configured.host)

  unfoldable pub steps : List Input → Daemon → Daemon
  unfolding step
  steps [] d = d
  steps (i ∷ is) d = steps is (step i d)
