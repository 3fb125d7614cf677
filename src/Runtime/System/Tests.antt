-- ===== src/Runtime/System/Tests.antt =====
-- A daemon in strict mode: an action of its database is approved, and one of a plugin is not.
use mathlib.Core.List.{Sublistᴰ}
use auxitalk.Plugins.Process.Calls.{delivered, expired}
use auxitalk.Base.Map.{put}
use auxitalk.Control.Approvals.{approved_by}
use auxitalk.Base.Text.{has_prefix, strip_prefix, trim_prefix}
use auxitalk.Actions.Store.{save}
use auxitalk.Events.Bus
use auxitalk.Events.Bus.{subscribe, restore_history, restore_loop}
use auxitalk.Workflows.Engine.{set_rules, first_error}
use auxitalk.Workflows.Registry.{registry_rules}
use auxitalk.Runtime.Deps.{persistence, workflow, tracking}
use auxitalk.Base.{
  ◌*◌, ◌+◌, ℕ, pos, true, [], ◌∷◌, List, String, none, some, ok, err, ◌≡◌, refl, string_eq,
}
use auxitalk.Types.Event.{Time}
use auxitalk.Types.Value.{num}
use auxitalk.Types.Samples.{reply, greeter}
use auxitalk.Control.{Request}
use auxitalk.Runtime.Reload.Consistent.{Agrees}
use auxitalk.Runtime.System.Consistent.{daemon-Agrees}
use mathlib.Core.List.Perm
use auxitalk.Actions.Gate.{mode_strict}
use auxitalk.Config.{Config, default}
use auxitalk.Storage.{Storage}
use auxitalk.Runtime.Restore.{Queries}
use auxitalk.Runtime.Host.Loading.{Machine}
use auxitalk.Runtime.System.{
  Meets, Daemon, Input, asked, plugin_asked, approvals_of, publish, steps,
}
use auxitalk.Runtime.System.Boot.{Begins, boot}
use auxitalk.Runtime.System.Ledger.{Moves}
use auxitalk.Runtime.System.Whole.{nothing}
use auxitalk.Runtime.System.Approved.{ids_of, start-Moves, start-approved}

abbrev clock : ℕ → Time
clock n = 63_900_000_000_000_000_000 + n

abbrev database : Storage
database = record {
  events = [];
  actions = ("a1", reply) ∷ [];
  workflows = [];
  sessions = [];
  fault = none;
}

abbrev rows : Queries
rows = record {
  events = λ t. ok [];
  actions = λ t. ok (reply ∷ []);
  workflows = λ t. ok [];
  sessions = λ t. ok [];
}

abbrev machine : Machine
machine = record {
  load = λ path. err "no such file";
  join = λ a b. b;
  env = λ p. [];
  spawn = λ spec. err "not found";
  meets = λ id. record {
    method = "plugin.stop";
    params = none;
    marshalled = λ q. ok 40;
    write = λ q. delivered;
    wait = λ id p. (p, expired true "context deadline exceeded");
    sleep = λ p. p;
    print = λ n. "0";
  };
}

abbrev begins : Begins
begins = record { opened = ok database; queries = rows; machine = machine; started = 5 }

abbrev config : Config
config = record default { mode = mode_strict; sqlite_path = "auxitalk.db"; workflows = [] }

abbrev daemon : Daemon
daemon = record {
  configured = record {
    host = record {
      runtime = record {
        mode = mode_strict;
        bus = record {
          handler_timeout = pos 10_000_000_000;
          history_limit = pos 1000;
          subscribers = [];
          wildcards = (1, persistence) ∷ (2, workflow) ∷ (3, tracking) ∷ [];
          history = [];
          next_id = 3;
        };
        actions = ("a1", reply) ∷ [];
        registry = [];
        engine = record { rules = []; id_seq = 0 };
        sessions = [];
        storage = some database;
        reads = 0;
        running = [];
      };
      supervisor = record {
        plugins = [];
        opts = record {
          call_timeout = pos 10_000_000_000;
          health_interval = pos 30_000_000_000;
          restart_backoff = pos 1_000_000_000;
          max_restarts = pos 3;
          max_health_failures = pos 3;
          max_payload_size = pos (1024 * 1024);
        };
      };
      router = [];
    };
    plugins = [];
  };
  executor = some (record { seq = 0; executions = [] });
  failures = [];
}

booted :
    boot
      (λ n. num "0")
      clock
      (publish (λ n. num "0") clock (λ m. m) (λ m. m) 3 (λ m. m) (λ m. m))
      (λ m. m)
      begins
      config
    ≡ some (ok daemon)
unfolding boot set_rules first_error registry_rules subscribe default restore_history put save
    Bus.new restore_loop
booted = refl

abbrev meets : Meets
meets = record {
  load = λ p. err "no such file";
  spawned = err "not found";
  stopped = 7;
  started = 8;
  paused = [];
  read_log = λ n. ok "";
}

-- a request without a body
abbrev bare : String → String → Request
bare method path = record {
  method = method;
  path = path;
  limit = "";
  limit_value = none;
  event_body = err "EOF";
  workflows_body = err "EOF";
  plugin_body = err "EOF";
}

-- a request to approve an action, with its method
abbrev approval : String → String → Input
approval method path = asked meets (bare method path)

-- a plugin asks for an action, a GET and two POSTs ask to approve one
abbrev inputs : List Input
inputs =
    plugin_asked 6 (record {
      plugin_id = "telegram";
      method = "action.request";
      event = none;
      action = some (record reply { id = "a2" });
    })
    ∷ approval "GET" "/api/actions/a2/approve"
    ∷ approval "POST" "/api/actions/a1/approve"
    ∷ approval "POST" "/api/actions/a3/approve"
    ∷ []

abbrev run : List Input → Daemon
run is = steps (λ n. num "0") clock (λ m. m) (λ m. m) 3 (λ m. m) (λ m. m) is daemon

approved_two : approvals_of inputs ≡ "a1" ∷ "a3" ∷ []
unfolding approvals_of approved_by has_prefix strip_prefix trim_prefix
approved_two = refl

start-Moves_example : Moves mode_strict nothing (record {
  approved = approvals_of inputs;
  started = (run inputs).configured.host.runtime.running;
})
start-Moves_example =
    start-Moves (λ n. num "0") clock (λ m. m) (λ m. m) 3 (λ m. m) (λ m. m) begins config daemon
      inputs booted

start-approved_example :
    Sublistᴰ (ids_of (run inputs).configured.host.runtime.running) (approvals_of inputs)
start-approved_example =
    start-approved (λ n. num "0") clock (λ m. m) (λ m. m) 3 (λ m. m) (λ m. m) begins config daemon
      inputs booted refl

-- a reload brings a workflow, and a request disables it
abbrev changes : List Input
changes =
    asked meets
      (record (bare "POST" "/api/workflows/reload") { workflows_body = ok (greeter ∷ []) })
    ∷ asked meets (bare "POST" "/api/workflows/w1/disable")
    ∷ []

daemon-Agrees_example : Agrees (λ m. m) (run changes).configured.host.runtime
daemon-Agrees_example =
    daemon-Agrees (λ n. num "0") clock (λ m. m) (λ m. m) 3 (λ m. m) (λ m. m) (λ m. Perm.refl m)
      begins config daemon changes booted
