-- ===== src/Plugins/Process/Calls/Ends.antt =====
-- A call is tried at most three times.
use auxitalk.Base.{ℕ, none, ok, ◌≤◌, String, List, Option, some, Result, ◌≡◌, length, ◌⊎◌}
use auxitalk.Rpc.Protocol.{Raw, Request, new_request}
use auxitalk.Plugins.Process.{PluginProcess}
use auxitalk.Plugins.Process.Calls.{stuck, Surroundings, Called}

-- The write of one of the call's requests never ends.
abbrev pub IsStuck : Surroundings → Type 0
IsStuck s =
    (id : String) × (r : Request) × (new_request id s.method s.params ≡ ok r) × (s.write r ≡ stuck)

-- There is a result, with at most k ids, or none because a write never ends.
abbrev Ends : Surroundings → ℕ → Called → Type 0
Ends s k c =
    ((q : PluginProcess) × (r : Result (Option Raw)) × (ids : List String) × (c
        ≡ some (q, (r, ids)))
      × (length ids ≤ k))
    ⊎ ((c ≡ none) × IsStuck s)
