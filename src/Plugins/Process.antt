-- ===== src/Plugins/Process.antt =====
-- internal/plugins/supervisor/process.go: one plugin's process. Each section under the mutex is a
-- function; the operating system's answers and the times that are read are arguments.
pub mod Calls
pub mod Life
use auxitalk.Base.{
  ℕ, ◌+◌, ◌-◌, ◌*◌, ℤ, pos, ltb_ℤ, String, Bool, true, false, List, [], ◌∷◌, Option, none, some,
  Error, Result, ok, err, ◌&&◌, ◌==◌, nat_eq, not, if◌then◌else◌,
}
use auxitalk.Base.Int.{inc}
use auxitalk.Types.Event.{Time, is_zero}

abbrev pub err_already_running : Error
err_already_running = "plugin already running"

abbrev pub err_not_running : Error
err_not_running = "plugin is not running"

pub record ProcessSpec : Type 0 where
  pub id : String
  pub command : String
  pub args : List String
  pub dir : String
  pub env : List String

-- the numbers of Go's ProcessOptions; times are nanoseconds
pub record ProcessOptions : Type 0 where
  pub call_timeout : ℤ
  pub health_interval : ℤ
  pub restart_backoff : ℤ
  pub max_restarts : ℤ
  pub max_health_failures : ℤ
  pub max_payload_size : ℤ

pub record ProcessStatus : Type 0 where
  pub id : String
  pub running : Bool
  pub started_at : Time
  pub stopped_at : Time
  pub uptime : ℕ
  pub restarts : ℤ
  pub health_failures : ℤ
  pub last_error : String

-- the field ctx, with what its Err says
pub data Context : Type 0 where
  unset live cancelled : Context

pub record PluginProcess : Type 0 where
  pub spec : ProcessSpec
  pub opts : ProcessOptions
  pub cmd : Option ℕ  -- the process of the operating system
  pub running : Bool
  pub seq : ℕ  -- uint64
  pub pending : List (String × ℕ)  -- channels
  pub context : Context
  pub restarts : ℤ
  pub health_failures : ℤ
  pub started_at : Time
  pub stopped_at : Time
  pub last_error : Option Error

-- if x <= 0 { x = d }
abbrev pub default_to : ℤ → ℤ → ℤ
default_to d x = if ltb_ℤ x (pos 1) then d else x

unfoldable pub new_process : ProcessSpec → ProcessOptions → PluginProcess
new_process spec opts = record {
  spec = spec;
  opts = record opts {
    call_timeout = default_to (pos 10_000_000_000) opts.call_timeout;
    health_interval = default_to (pos 30_000_000_000) opts.health_interval;
    restart_backoff = default_to (pos 1_000_000_000) opts.restart_backoff;
    max_health_failures = default_to (pos 3) opts.max_health_failures;
    max_payload_size = default_to (pos (1024 * 1024)) opts.max_payload_size;
  };
  cmd = none;
  running = false;
  seq = 0;
  pending = [];
  context = unset;
  restarts = pos 0;
  health_failures = pos 0;
  started_at = 0;
  stopped_at = 0;
  last_error = none;
}

-- err.Error(), or "" for nil
abbrev pub text_of : Option Error → String
text_of none = ""
text_of (some e) = e

-- statusLocked; `now` is the time that time.Since reads
unfoldable pub status_locked : Time → PluginProcess → ProcessStatus
status_locked now p = record {
  id = p.spec.id;
  running = p.running;
  started_at = p.started_at;
  stopped_at = p.stopped_at;
  uptime = if p.running && not (is_zero p.started_at) then now - p.started_at else 0;
  restarts = p.restarts;
  health_failures = p.health_failures;
  last_error = text_of p.last_error;
}

-- The state after a section, and the statuses that it gives to OnStatus.
abbrev pub Section : Type 0 → Type 0
Section A = PluginProcess × (A × List ProcessStatus)

-- `spawned` is the new process, or the first error of the pipes and of cmd.Start.
unfoldable pub start_locked : Result ℕ → Time → PluginProcess → Section (Option Error)
unfolding status_locked
start_locked (err e) now p = (p, (some e, []))
start_locked (ok pid) now p =
    let p' = record p {
      cmd = some pid;
      running = true;
      context = live;
      started_at = now;
      stopped_at = 0;
      health_failures = pos 0;
      last_error = none;
    } in
    (p', (none, status_locked now p' ∷ []))

unfoldable pub start : Result ℕ → Time → PluginProcess → Section (Option Error)
unfolding start_locked
start spawned now p =
    if p.running then (p, (some err_already_running, [])) else start_locked spawned now p

-- p.cancel()
abbrev pub cancel : Context → Context
cancel unset = unset
cancel live = cancelled
cancel cancelled = cancelled

unfoldable pub stop_locked : Time → PluginProcess → PluginProcess × List ProcessStatus
unfolding status_locked
stop_locked now p =
    let p' = record p { context = cancel p.context; running = false; stopped_at = now } in
    (p', status_locked now p' ∷ [])

unfoldable pub stop : Time → PluginProcess → Section (Option Error)
unfolding stop_locked
stop now p =
    if not p.running
    then (p, (some err_not_running, []))
    else (let (p', statuses) = stop_locked now p in (p', (none, statuses)))

-- p.ctx != nil && p.ctx.Err() == nil
abbrev pub is_live : Context → Bool
is_live unset = false
is_live live = true
is_live cancelled = false

-- The section of `monitor` after Wait, which ends with `e`; it says whether to restart.
unfoldable pub monitor_exit : Option Error → Time → PluginProcess → Section Bool
unfolding status_locked
monitor_exit e now p =
    let restart = is_live p.context && ltb_ℤ p.restarts p.opts.max_restarts in
    let p' = record p {
      running = false;
      stopped_at = now;
      last_error = e;
      restarts = if restart then inc p.restarts else p.restarts;
    } in
    (p', (restart, status_locked now p' ∷ []))

-- The section of `monitor` after the back-off; the error is dropped.
unfoldable pub monitor_restart :
    Result ℕ → Time → PluginProcess → PluginProcess × List ProcessStatus
unfolding start_locked
monitor_restart spawned now p =
    let (p', (e, statuses)) = start_locked spawned now p in (p', statuses)

-- p.cmd != nil
abbrev pub is_some : Option ℕ → Bool
is_some none = false
is_some (some x) = true

-- The section of `healthLoop` after the call of plugin.health, which ended with `e`; it says
-- whether the loop kills the process and returns.
unfoldable pub health_section : Option Error → Time → PluginProcess → Section Bool
unfolding status_locked
health_section (some e) now p =
    let p' = record p { health_failures = inc p.health_failures; last_error = some e } in
    (
      p',
      (
        not (ltb_ℤ p'.health_failures p'.opts.max_health_failures) && is_some p'.cmd,
        status_locked now p' ∷ [],
      ),
    )
health_section none now p =
    let p' = record p { health_failures = pos 0; last_error = none } in
    (p', (false, status_locked now p' ∷ []))
