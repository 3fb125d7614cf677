-- ===== src/Plugins/Process/Life/Overlap.antt =====
-- A start during the back-off of a restart.
use auxitalk.Base.{ℕ, suc, ◌<◌, true, some, Option, Error, ok, ltb_ℤ, ◌≡◌, refl, arith}
use auxitalk.Types.Event.{Time}
use auxitalk.Plugins.Process.{start, start_locked, monitor_exit, monitor_restart, live}
use auxitalk.Plugins.Process.Life.{Life, owner_starts, process_ends, monitor_tries}

-- A process of a plugin that is not stopped ends with restarts left; Start succeeds while the monitor
-- backs off, and then the monitor's restart succeeds: one process more waits for its end than before
-- (the one that ended is gone, two are new), and the plugin knows only the monitor's.
pub restart-overlaps_start :
    (l : Life) (e : Option Error) (a b : ℕ) (t1 t2 t3 : Time)
    → 0 < l.waiting
    → l.process.context ≡ live
    → ltb_ℤ l.process.restarts l.process.opts.max_restarts ≡ true
    → let ended = process_ends e t1 l in
      let again = owner_starts (ok a) t2 ended in
      let both = monitor_tries (ok b) t3 again in
      (ended.backing_off ≡ suc l.backing_off)
      × (again.process.cmd ≡ some a)
      × (both.waiting ≡ suc l.waiting)
      × (both.process.cmd ≡ some b)
unfolding owner_starts process_ends monitor_tries start start_locked monitor_exit monitor_restart
restart-overlaps_start l e a b t1 t2 t3 h c r = (rw (c, r) refl, refl, omega arith, refl)
