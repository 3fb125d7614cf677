-- ===== src/Runtime/Host/Tests.antt =====
-- Runs of the health checks and of the requests of plugins.
use auxitalk.Base.{
  suc, ◌%◌, String, List, Option, ◌==◌, nat_eq, string_eq, if◌then◌else◌, ℕ, ◌+◌, pos, true, false,
  [], ◌∷◌, none, some, Error, ok, ◌≡◌, refl,
}
use auxitalk.Types.Value.{num}
use auxitalk.Types.Event.{Time}
use auxitalk.Actions.Gate.{mode_local}
use auxitalk.Plugins.Process.{ProcessSpec, ProcessOptions, new_process}
use auxitalk.Plugins.Supervisor.{is_running}
use auxitalk.Events.Bus
use auxitalk.Runtime.Publish.{Publisher}
use auxitalk.Runtime.Host.{Host, health_visit}
use auxitalk.Runtime.Host.Health.{in_a_row, visit_all, announced, health-third}
use auxitalk.Runtime.Host.Requests.{PluginRequest, answer_plugin}
use auxitalk.Runtime.Host.Unanswered.{answer_plugin-stop}

abbrev clock : ℕ → Time
clock n = 63_900_000_000_000_000_000 + n

abbrev spec : ProcessSpec
spec = record { id = "telegram"; command = "node"; args = "index.js" ∷ []; dir = "/p"; env = [] }

abbrev limits : ProcessOptions
limits = record {
  call_timeout = pos 5;
  health_interval = pos 5;
  restart_backoff = pos 5;
  max_restarts = pos 3;
  max_health_failures = pos 3;
  max_payload_size = pos 100;
}

abbrev host : Host
host = record {
  runtime = record {
    mode = mode_local;
    bus = Bus.new (pos 5) (pos 100);
    actions = [];
    registry = [];
    engine = record { rules = []; id_seq = 0 };
    sessions = [];
    storage = none;
    reads = 0;
    running = [];
  };
  supervisor = record {
    plugins = ("telegram", record (new_process spec limits) { running = true }) ∷ [];
    opts = limits;
  };
  router = [];
}

-- a bus without handlers
abbrev silent : Publisher
silent e r = (r, none)

abbrev stop_request : PluginRequest
stop_request = record {
  plugin_id = "telegram";
  method = "plugin.stop";
  event = none;
  action = none;
}

answer_plugin-stop_example :
    let r =
      answer_plugin
        (λ n. num "0")
        clock
        silent
        (pos 100)
        (λ reply. ok 20)
        none
        9
        stop_request
        host in
    (is_running "telegram" r.0.supervisor ≡ false) × ((e : Error) × (r.1 ≡ some e))
answer_plugin-stop_example =
    answer_plugin-stop (λ n. num "0") clock silent (pos 100) (λ reply. ok 20) none 9 stop_request
      host refl

-- two failures of a plugin, around one of another
abbrev before : List (String × Option Error)
before = ("telegram", some "timeout") ∷ ("web", some "timeout") ∷ ("telegram", some "timeout") ∷ []

health-third_example :
    (let after = visit_all (λ n. num "0") clock silent before [] host.runtime in
      (health_visit (λ n. num "0") clock silent "telegram" (some "timeout") after.0 after.1).1 ≡ (
        if suc (in_a_row "telegram" 0 before) % 3 == 0
        then announced (λ n. num "0") clock silent "telegram" "timeout" after.1
        else after.1))
health-third_example =
    health-third (λ n. num "0") clock silent before "telegram" "timeout" host.runtime

is_third : suc (in_a_row "telegram" 0 before) ≡ 3
unfolding in_a_row
is_third = refl
