-- ===== src/Plugins/Supervisor.antt =====
-- internal/plugins/supervisor/supervisor.go: the processes by the id of their plugin.
use auxitalk.Base.{
  ℕ, String, Bool, false, List, [], ◌∷◌, Option, none, some, Error, Result, err, string_eq, concat,
}
use auxitalk.Base.Map.{lookup, put, values}
use auxitalk.Types.Event.{Time}
use auxitalk.Plugins.Process.{
  PluginProcess, ProcessSpec, ProcessOptions, ProcessStatus, new_process, status_locked,
}
use auxitalk.Plugins.Process
use auxitalk.Plugins.Process.Calls.{Surroundings}
use auxitalk.Plugins.Process.Calls
use auxitalk.Rpc.Protocol.{Raw}

pub record Supervisor : Type 0 where
  pub plugins : List (String × PluginProcess)
  pub opts : ProcessOptions

abbrev pub new_supervisor : ProcessOptions → Supervisor
new_supervisor opts = record { plugins = []; opts = opts }

unfoldable pub not_found : String → Error
not_found id = concat ("plugin " ∷ id ∷ " not found" ∷ [])

unfoldable pub register : ProcessSpec → Supervisor → Supervisor × Option Error
register spec s = elim (lookup spec.id s.plugins) [
  | some _ ↦ (s, some (concat ("plugin " ∷ spec.id ∷ " already registered" ∷ [])))
  | none ↦ (record s { plugins = put spec.id (new_process spec s.opts) s.plugins }, none)
]

abbrev pub Action : Type 0
Action = Supervisor × (Option Error × List ProcessStatus)

-- The processes are pointers: a section of one of them is written back under its id.
abbrev write_back :
    String → Supervisor → PluginProcess × (Option Error × List ProcessStatus) → Action
write_back id s (p, r) = (record s { plugins = put id p s.plugins }, r)

unfoldable pub start : Result ℕ → Time → String → Supervisor → Action
unfolding not_found
start spawned now id s = elim (lookup id s.plugins) [
  | none ↦ (s, (some (not_found id), []))
  | some p ↦ write_back id s (Process.start spawned now p)
]

unfoldable pub stop : Time → String → Supervisor → Action
unfolding not_found
stop now id s = elim (lookup id s.plugins) [
  | none ↦ (s, (some (not_found id), []))
  | some p ↦ write_back id s (Process.stop now p)
]

-- Call; the result is that of the process's call, `none` if it does not return.
unfoldable pub call : Surroundings → String → Supervisor → Option (Supervisor × Result (Option Raw))
unfolding not_found
call world id s = elim (lookup id s.plugins) [
  | none ↦ some (s, err (not_found id))
  | some p ↦ elim (Calls.call world p) [
    | none ↦ none
    | some (p', (r, ids)) ↦ some (record s { plugins = put id p' s.plugins }, r)
  ]
]

unfoldable pub is_running : String → Supervisor → Bool
is_running id s = elim (lookup id s.plugins) [ none ↦ false | some p ↦ p.running ]

-- the ids, in the order of the iteration
unfoldable pub ids_of : List (String × PluginProcess) → List String
ids_of [] = []
ids_of ((id, p) ∷ m) = id ∷ ids_of m

unfoldable pub list :
    (order : List (String × PluginProcess) → List (String × PluginProcess))
    → Supervisor
    → List String
unfolding ids_of
list order s = ids_of (order s.plugins)

unfoldable pub status : Time → String → Supervisor → Option ProcessStatus
status now id s = elim (lookup id s.plugins) [ none ↦ none | some p ↦ some (status_locked now p) ]

unfoldable pub statuses_of : Time → List PluginProcess → List ProcessStatus
statuses_of now [] = []
statuses_of now (p ∷ ps) = status_locked now p ∷ statuses_of now ps

unfoldable pub list_status :
    (order : List (String × PluginProcess) → List (String × PluginProcess))
    → Time
    → Supervisor
    → List ProcessStatus
unfolding statuses_of values
list_status order now s = statuses_of now (values (order s.plugins))
