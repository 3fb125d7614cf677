-- ===== src/Plugins/Tests.antt =====
-- Runs of the plugins' processes and of their registry.
use mathlib.Core.List.Perm
use mathlib.Core.List.{Perm, perm_append_comm}
use auxitalk.Base.{
  ℕ, suc, ◌+◌, ◌≤◌, ◌<◌, ◌^◌, concat, pos, pos_part, ltb_ℤ, true, false, List, [], ◌∷◌, none, some,
  ok, ◌≡◌, refl, arith,
}
use auxitalk.Base.Lists.{reverse}
use auxitalk.Base.Decimal.{decimal}
use auxitalk.Base.Map.{put, lookup}
use auxitalk.Types.Samples.{manifest}
use auxitalk.Plugins.Process.{
  PluginProcess, ProcessSpec, ProcessOptions, live, new_process, start, start_locked, monitor_exit,
}
use auxitalk.Plugins.Process.Life.{
  Life, new_life, Reach, here, next, start_step, end_step, owner_starts, process_ends,
  monitor_tries, try_step,
}
use auxitalk.Plugins.Process.Life.Bounded.{restarts-limited}
use auxitalk.Plugins.Process.Life.Overlap.{restart-overlaps_start}
use auxitalk.Plugins.Process.Calls.{
  Surroundings, delivered, expired, call_id, open_call, take_response,
}
use auxitalk.Plugins.Process.Calls.Routed.{
  Traffic, here as idle, opened, aside, response-reaches_call,
}
use auxitalk.Plugins.Process.Calls.Answered.{call-answered}
use auxitalk.Plugins.Registry.{Registry, Plugin, list}
use auxitalk.Plugins.Registry.Ordered.{registered, list_same}

abbrev echo_spec : ProcessSpec
echo_spec = record { id = "echo"; command = "/bin/echo"; args = []; dir = "/"; env = [] }

abbrev options : ProcessOptions
options = record {
  call_timeout = pos 5;
  health_interval = pos 5;
  restart_backoff = pos 5;
  max_restarts = pos 3;
  max_health_failures = pos 3;
  max_payload_size = pos 100;
}

abbrev fresh : Life
fresh = new_life echo_spec options

abbrev up : Life
up = owner_starts (ok 11) 5 fresh

-- The process has ended, and its monitor restarts it.
abbrev again : Life
again = monitor_tries (ok 12) 7 (process_ends (some "exit status 1") 6 up)

up_waiting : up.waiting ≡ 1
unfolding owner_starts start start_locked new_process
up_waiting = refl

ended_backing_off : (process_ends (some "exit status 1") 6 up).backing_off ≡ 1
unfolding owner_starts start start_locked new_process process_ends monitor_exit
ended_backing_off = refl

again_reached : Reach fresh again
again_reached =
    next
      (next (next here (start_step (ok 11) 5 refl))
        (end_step (some "exit status 1") 6 (omega (arith, up_waiting)) refl))
      (try_step (ok 12) 7 (omega (arith, ended_backing_off)) refl)

restarts-limited_example :
    (again.process.restarts ≡ pos (again.tries + again.backing_off))
    × (again.tries + again.backing_off ≤ pos_part options.max_restarts)
    × (again.waiting ≤ again.starts + again.tries)
restarts-limited_example = restarts-limited echo_spec options again (omega arith) again_reached

up_live : up.process.context ≡ live
unfolding owner_starts start start_locked new_process
up_live = refl

up_restarts : ltb_ℤ up.process.restarts up.process.opts.max_restarts ≡ true
unfolding owner_starts start start_locked new_process
up_restarts = refl

restart-overlaps_start_example :
    let ended = process_ends none 6 up in
    let twice = owner_starts (ok 12) 7 ended in
    let both = monitor_tries (ok 13) 8 twice in
    (ended.backing_off ≡ suc up.backing_off)
    × (twice.process.cmd ≡ some 12)
    × (both.waiting ≡ suc up.waiting)
    × (both.process.cmd ≡ some 13)
restart-overlaps_start_example =
    restart-overlaps_start up none 12 13 6 7 8 (omega (arith, up_waiting)) up_live up_restarts

abbrev idle_process : PluginProcess
idle_process = new_process echo_spec options

-- the process after Start
abbrev running_process : PluginProcess
running_process = record idle_process { running = true }

running-Traffic : Traffic (λ _. Unit) idle_process running_process
running-Traffic = aside running_process idle refl refl refl

first_seq : suc running_process.seq < 2 ^ 64
unfolding new_process
first_seq = omega arith

first_id : (open_call running_process).1 ≡ ok "echo-1"
unfolding open_call call_id concat decimal new_process
first_id = refl

call-answered_example :
    (take_response "echo-1" (open_call running_process).0).1 ≡ some (suc running_process.seq)
call-answered_example =
    call-answered echo_spec options running_process (open_call running_process).0 "echo-1"
      running-Traffic first_seq first_id idle

first_response : (take_response (call_id echo_spec 1) (open_call running_process).0).1 ≡ some 1
unfolding open_call call_id concat decimal new_process take_response put lookup
first_response = refl

abbrev channel : ℕ
channel = 1

response-reaches_call_example :
    (channel ≡ 1)
    × ((take_response
          (call_id echo_spec 1)
          (take_response (call_id echo_spec 1) (open_call running_process).0).0).1
        ≡ none)
response-reaches_call_example =
    response-reaches_call echo_spec options (open_call running_process).0 1 1
      (opened running-Traffic first_seq) (omega arith) first_response

-- Every wait ends at its deadline.
abbrev silent : Surroundings
silent = record {
  method = "plugin.health";
  params = none;
  marshalled = λ r. ok 40;
  write = λ r. delivered;
  wait = λ id p. (p, expired false "context deadline exceeded");
  sleep = λ p. p;
  print = λ n. "";
}

abbrev plugin : Plugin
plugin = record { manifest_path = "/p/plugin.json"; root_dir = "/p"; manifest = manifest }

abbrev plugins : List Plugin
plugins = record plugin { manifest = record manifest { id = "discord" } } ∷ plugin ∷ []

reverse_order : (m : Registry) → Perm (reverse m) m
reverse_order [] = Perm.refl []
reverse_order (x ∷ m) =
    Perm.trans (perm_append_comm (reverse m) (x ∷ [])) (Perm.cons x (reverse_order m))

list_same_example : list (λ r. r) (registered plugins) ≡ list reverse (registered plugins)
list_same_example = list_same (λ r. r) reverse plugins (λ r. Perm.refl r) reverse_order
