-- ===== src/Plugins/Process/Life.antt =====
-- The life of a plugin's process: its owner starts and stops it, its processes end and its monitors
-- restart it, in any order.
pub mod Bounded
pub mod Overlap
use auxitalk.Base.{
  ℕ, suc, ◌+◌, ◌-◌, ◌<◌, Bool, true, false, Option, none, some, Error, Result, ok, err, ◌≡◌,
  if◌then◌else◌,
}
use auxitalk.Types.Event.{Time}
use auxitalk.Plugins.Process.{
  PluginProcess, ProcessSpec, ProcessOptions, Context, new_process, start, stop, monitor_exit,
  monitor_restart, health_section, cancelled,
}

pub record Life : Type 0 where
  pub process : PluginProcess
  pub waiting : ℕ  -- monitors in Wait, each with a process that has not been reaped
  pub backing_off : ℕ  -- monitors in the back-off before a restart
  pub loops : ℕ  -- health loops
  pub starts : ℕ  -- calls of Start that have started a process
  pub tries : ℕ  -- restarts that monitors have tried

abbrev pub new_life : ProcessSpec → ProcessOptions → Life
new_life spec opts = record {
  process = new_process spec opts;
  waiting = 0;
  backing_off = 0;
  loops = 0;
  starts = 0;
  tries = 0;
}

-- A start that succeeds brings a monitor and a health loop.
abbrev pub started : Option Error → Life → Life
started (some e) l = l
started none l = record l { waiting = suc l.waiting; loops = suc l.loops }

unfoldable pub owner_starts : Result ℕ → Time → Life → Life
owner_starts spawned now l =
    let (p, (e, statuses)) = start spawned now l.process in
    let l' = started e (record l { process = p }) in
    elim e [ some _ ↦ l' | none ↦ record l' { starts = suc l.starts } ]

unfoldable pub owner_stops : Time → Life → Life
owner_stops now l = record l { process = (stop now l.process).0 }

-- A process ends, and its monitor leaves Wait.
unfoldable pub process_ends : Option Error → Time → Life → Life
process_ends e now l =
    let (p, (restart, statuses)) = monitor_exit e now l.process in
    record l {
      process = p;
      waiting = l.waiting - 1;
      backing_off = if restart then suc l.backing_off else l.backing_off;
    }

-- A monitor leaves the back-off.
unfoldable pub monitor_tries : Result ℕ → Time → Life → Life
monitor_tries spawned now l =
    let l' = record l {
      process = (monitor_restart spawned now l.process).0;
      backing_off = l.backing_off - 1;
      tries = suc l.tries;
    } in
    elim spawned [ err _ ↦ l' | ok _ ↦ started none l' ]

unfoldable pub health_round : Option Error → Time → Life → Life
health_round e now l =
    let (p, (ended, statuses)) = health_section e now l.process in
    record l { process = p; loops = if ended then l.loops - 1 else l.loops }

pub data Step (l m : Life) : Type 0 where
  start_step : (spawned : Result ℕ) (now : Time) → m ≡ owner_starts spawned now l → Step l m
  stop_step : (now : Time) → m ≡ owner_stops now l → Step l m
  end_step : (e : Option Error) (now : Time) → 0 < l.waiting → m ≡ process_ends e now l → Step l m
  try_step :
      (spawned : Result ℕ) (now : Time)
      → 0 < l.backing_off
      → m ≡ monitor_tries spawned now l
      → Step l m
  health_step : (e : Option Error) (now : Time) → 0 < l.loops → m ≡ health_round e now l → Step l m
  loop_ends :
      l.process.context ≡ cancelled → 0 < l.loops → m ≡ record l { loops = l.loops - 1 } → Step l m

pub data Reach (l : Life) : Life → Type 0 where
  here : Reach l l
  next : {m n : Life} → Reach l m → Step m n → Reach l n
