-- ===== src/Lib.antt =====
-- Verification of the AuxiTalk core: a daemon that receives events from plugins, matches them against
-- workflows, and passes the actions that they request through a gate.
--
-- Parts, with the code that each file models:
-- - Base: what the program uses of Go itself: maps as association lists (Base/Map), text functions of
--   `strings` (Base/Text), `int` (Base/Int), errors by their text (Base/Errors), `%d` (Base/Decimal).
-- - Types: pkg/types. Types/Value has `map[string]any`; Types/Workflow and Types/Workflow/Condition
--   the matching of rules; each `validate` is the type's method Validate.
-- - Events/Bus: internal/events/bus.go. `subscribe`, `unsubscribe`, `publish`, `record_event` and
--   `restore_history` are Subscribe, Unsubscribe, Publish, record and RestoreHistory.
-- - Actions/Gate, Actions/Store: internal/actions/gate.go and store.go.
-- - Workflows: internal/workflows, with Engine and Interpolate for engine.go, Registry for registry.go
--   and Executor for executor.go.
-- - Sessions, Capabilities: internal/sessions/manager.go, internal/capabilities/router.go.
-- - Storage: the writes of internal/storage/sqlite/store.go, tables by their primary key, and in
--   Storage/Read its lists, by their limit.
-- - Runtime: internal/runtime/runtime.go, with Deps for its state, the clock and the handlers that do
--   not publish, Publish for the bus, the workflow handler and RequestAction, Mutations for ApproveAction,
--   DenyAction, handleActionRequest and the end of executeActionAsync, Reload for ReloadWorkflows,
--   EnableWorkflow and DisableWorkflow, Restore for New and openStorage, and Host for plugins: what they
--   report and ask (Host, Host/Requests), loadPlugins and shutdown (Host/Loading), the body of
--   executeActionAsync (Host/Fallback), ConfigurePlugin and the operations for the API (Host/Configure).
--   System joins them: Boot is New and Run up to the wait, `step` takes what reaches the daemon then
--   (a request of the API through Control's `serve`, a plugin's request, the run of an action, a
--   report or a health check, loading, the shutdown), and Ledger is the specification of what is started.
-- - Plugins: internal/plugins. Plugins/Registry is registry.go and manifest.go, Plugins/Process is
--   supervisor/process.go with a function for each section under the mutex, Plugins/Process/Calls its
--   calls and responses, Plugins/Process/Life the steps of owner, processes, monitors and health loops in
--   any order, Plugins/Supervisor is supervisor/supervisor.go, and Plugins/Single supervisor.go.
-- - Rpc: internal/rpc/codec.go and pkg/protocol/jsonrpc.go. Context: internal/context/builder.go.
-- - Config: internal/config/config.go. Control: internal/control/server.go, over the operations that
--   Control/Service lists; Control/Streams is what its streams write, Control/Approvals which requests
--   approve an action.
-- - Commands: internal/logger/logger.go (Commands/Logger), cmd/auxitalkd/main.go (Commands/Daemon) and
--   cmd/auxitalkctl/main.go (Commands/Ctl).
--
-- How they interact: Publish of the bus calls the runtime's three handlers; the workflow handler gives
-- the event to the engine, whose sink is RequestAction; RequestAction asks the gate, stores and persists
-- the action, publishes an event on it, and starts it if it is allowed. So publishing nests, and the bus
-- and the engine are functions on a state that holds them, with the handlers and the sink as parameters.
--
-- State is passed explicitly, and an operation under a mutex is one step. An iteration over a Go map
-- takes the order of its entries as an argument. The clock is a function from the count of its reads.
-- Machine integers wrap as in Go: the counters of subscriptions, of requested actions and of executions
-- at 2^64, the depth of an event at 2^63. How a handler's call ends (return, deadline, cancellation) is
-- a value of the model.
--
-- Fuel: `publish_at` takes the number of levels to which publishing may nest, for the code itself puts
-- no bound on it: an event on an action's status is published at depth 0. The theorems on it hold for
-- every number of levels. `decimal` prints 20 digits, as many as a 64-bit number has. A
-- call of a plugin has fuel for three attempts, as many as the code makes; it has no result where a
-- write to the plugin never ends, which the code puts no limit on.
--
-- Not modelled: JSON, the SQL engine, the operating system and HTTP, whose answers are parameters;
-- ServeMux's redirect of a path that is not clean: `serve` gets the paths that need none; the
-- texts that are logged; how goroutines interleave within one handler: the daemon's inputs are taken one
-- after the other, the run of an action from its start to its end is one of them, and in the pause of
-- ConfigurePlugin only reports on plugins arrive.
pub mod Base
pub mod Types
pub mod Actions
pub mod Events
pub mod Sessions
pub mod Workflows
pub mod Storage
pub mod Capabilities
pub mod Runtime
pub mod Config
pub mod Control
pub mod Context
pub mod Rpc
pub mod Plugins
pub mod Commands
