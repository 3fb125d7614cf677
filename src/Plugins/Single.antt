-- ===== src/Plugins/Single.antt =====
-- internal/plugins/supervisor.go: a supervisor of one plugin, which the daemon does not use.
use auxitalk.Base.{
  ℤ, pos, ltb_ℤ, String, Bool, true, false, [], ◌∷◌, Option, none, some, Error, if◌then◌else◌,
  concat, has_prefix,
}
use auxitalk.Base.Int.{inc}
use auxitalk.Types.Plugin as Manifest
use auxitalk.Plugins.Registry.{Plugin}

abbrev pub err_supervisor_already_running : Error
err_supervisor_already_running = "plugin supervisor already running"

abbrev pub err_supervisor_not_running : Error
err_supervisor_not_running = "plugin supervisor is not running"

-- times are nanoseconds
pub record SupervisorOptions : Type 0 where
  pub health_interval : ℤ
  pub health_timeout : ℤ
  pub restart_backoff : ℤ
  pub max_restarts : ℤ

pub record Single : Type 0 where
  pub plugin : Plugin
  pub opts : SupervisorOptions
  pub running : Bool
  pub restarts : ℤ
  pub cancelled : Bool

abbrev pub or_default : ℤ → ℤ → ℤ
or_default d x = if ltb_ℤ x (pos 1) then d else x

pub new_single : Plugin → SupervisorOptions → Single
new_single plugin opts = record {
  plugin = plugin;
  opts = record {
    health_interval = or_default (pos 30_000_000_000) opts.health_interval;
    health_timeout = or_default (pos 2_000_000_000) opts.health_timeout;
    restart_backoff = or_default (pos 1_000_000_000) opts.restart_backoff;
    max_restarts = or_default (pos 3) opts.max_restarts;
  };
  running = false;
  restarts = pos 0;
  cancelled = false;
}

-- the path of the entry, absolute on Unix; `join` is filepath.Join
unfoldable pub entry_path : (join : String → String → String) → Plugin → String
entry_path join p =
    if has_prefix p.manifest.entry "/" then p.manifest.entry else join p.root_dir p.manifest.entry

-- `spawned` is the first error of the pipes and of cmd.Start, with its prefix, for an entry.
unfoldable pub start :
    (join : String → String → String)
    → (spawned : String → Option Error) → Single
    → Single × Option Error
unfolding entry_path
start join spawned s =
    if s.running
    then (s, some err_supervisor_already_running)
    else (elim (Manifest.validate s.plugin.manifest) [
      | some e ↦ (s, some (concat ("invalid manifest: " ∷ e ∷ [])))
      | none ↦ elim (spawned (entry_path join s.plugin)) [
        | some e ↦ (s, some e)
        | none ↦ (record s { running = true; restarts = pos 0; cancelled = false }, none)
      ]
    ])

unfoldable pub stop : Single → Single × Option Error
stop s =
    if s.running
    then (record s { cancelled = true; running = false }, none)
    else (s, some err_supervisor_not_running)

-- monitor, once its process has ended: it counts a restart and starts nothing.
unfoldable pub monitor : Single → Single
monitor s = record s {
  running = false;
  restarts = if ltb_ℤ s.restarts s.opts.max_restarts then inc s.restarts else s.restarts;
}
