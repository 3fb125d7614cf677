-- ===== src/Plugins/Process/Life/Bounded.antt =====
-- How often a process is restarted, whatever happens in whatever order.
use auxitalk.Base.{
  ℕ, suc, ◌+◌, ◌≤◌, ◌<◌, ℤ, pos, negsuc, pos_part, ltb_ℤ, Bool, true, Option, none, some, Error,
  Result, ok, err, ◌≡◌, refl, sym, ◌∙◌, ap, inl, inr, arith, Bool-cases, ◌&&◌, ◌≤ℤ◌,
}
use auxitalk.Base.Int.{inc, max_int, inc-pos}
use auxitalk.Types.Event.{Time}
use auxitalk.Plugins.Process.{
  ProcessSpec, ProcessOptions, new_process, start, start_locked, stop, stop_locked, monitor_exit,
  monitor_restart, health_section, is_live,
}
use auxitalk.Plugins.Process.Life.{
  Life, new_life, owner_starts, owner_stops, process_ends, monitor_tries, health_round, Step,
  start_step, stop_step, end_step, try_step, health_step, loop_ends, Reach, here, next,
}

-- The restarts are those tried and those to come, and the limit is the one of the options.
abbrev Counted : ℤ → Life → Type 0
Counted max l =
    (l.process.opts.max_restarts ≡ max)
    × (l.process.restarts ≡ pos (l.tries + l.backing_off))
    × (l.tries + l.backing_off ≤ pos_part max)
    × (l.waiting ≤ l.starts + l.tries)

below :
    (x : ℤ) (n : ℕ) (max : ℤ)
    → x ≡ pos n
    → max ≤ℤ max_int
    → ltb_ℤ x max ≡ true
    → (suc n ≤ pos_part max) × (inc x ≡ pos (suc n))
below x n (pos m) p small h = rw p (ground arith, inc-pos n (ground arith))
below x n (negsuc m) p small h = absurd (ground arith)

start_Counted :
    (max : ℤ) (spawned : Result ℕ) (now : Time) (l : Life)
    → Counted max l
    → Counted max (owner_starts spawned now l)
unfolding owner_starts start start_locked
start_Counted max (err e) now l h = elim (Bool-cases l.process.running) [
  | inl r ↦ rw r h
  | inr n ↦ rw n h
]
start_Counted max (ok pid) now l h = elim (Bool-cases l.process.running) [
  | inl r ↦ rw r h
  | inr n ↦ rw n (h.0, h.1, h.2, omega arith)
]

stop_Counted : (max : ℤ) (now : Time) (l : Life) → Counted max l → Counted max (owner_stops now l)
unfolding owner_stops stop stop_locked
stop_Counted max now l h = elim (Bool-cases l.process.running) [ inl r ↦ rw r h | inr n ↦ rw n h ]

both : (a b : Bool) → a && b ≡ true → b ≡ true
both a b h = ground arith

end_Counted :
    (max : ℤ)
    → max ≤ℤ max_int
    → (e : Option Error) (now : Time) (l : Life) → Counted max l
    → Counted max (process_ends e now l)
unfolding process_ends monitor_exit
end_Counted max small e now l (o, r, b, w) =
    elim (Bool-cases
      (is_live l.process.context && ltb_ℤ l.process.restarts l.process.opts.max_restarts)) [
        | inl again ↦
            (let less : ltb_ℤ l.process.restarts max ≡ true =
                ap (ltb_ℤ l.process.restarts) (sym o) ∙ both (is_live l.process.context) _ again in
              let k = below l.process.restarts (l.tries + l.backing_off) max r small less in
              let sum : suc (l.tries + l.backing_off) ≡ l.tries + suc l.backing_off = omega arith in
              rw again (o, k.1 ∙ ap pos sum, rw sum at k.0, omega arith))
        | inr n ↦ rw n (o, r, b, omega arith)
      ]

try_Counted :
    (max : ℤ) (spawned : Result ℕ) (now : Time) (l : Life)
    → 0 < l.backing_off
    → Counted max l
    → Counted max (monitor_tries spawned now l)
unfolding monitor_tries monitor_restart start_locked
try_Counted max (err e) now l some_wait (o, r, b, w) =
    (o, r ∙ ap pos (omega arith), omega arith, omega arith)
try_Counted max (ok pid) now l some_wait (o, r, b, w) =
    (o, r ∙ ap pos (omega arith), omega arith, omega arith)

health_Counted :
    (max : ℤ) (e : Option Error) (now : Time) (l : Life)
    → Counted max l
    → Counted max (health_round e now l)
unfolding health_round health_section
health_Counted max (some e) now l h = h
health_Counted max none now l h = h

Step-Counted : (max : ℤ) → max ≤ℤ max_int → (l m : Life) → Step l m → Counted max l → Counted max m
Step-Counted max small l m (start_step spawned now p) h = rw p (start_Counted max spawned now l h)
Step-Counted max small l m (stop_step now p) h = rw p (stop_Counted max now l h)
Step-Counted max small l m (end_step e now q p) h = rw p (end_Counted max small e now l h)
Step-Counted max small l m (try_step spawned now q p) h = rw p (try_Counted max spawned now l q h)
Step-Counted max small l m (health_step e now q p) h = rw p (health_Counted max e now l h)
Step-Counted max small l m (loop_ends c q p) h = rw p h

Reach-Counted :
    (max : ℤ) → max ≤ℤ max_int → (l m : Life) → Reach l m → Counted max l → Counted max m
Reach-Counted max small l m here h = h
Reach-Counted max small l m (next {m = k} r s) h =
    Step-Counted max small k m s (Reach-Counted max small l k r h)

-- Whatever the owner, the processes, the monitors and the health loops do in whatever order, from a
-- new plugin with a limit that an `int` holds: the monitors try no more
-- restarts than the limit (none, if it is negative), `restarts` counts exactly those tried and those in the back-off, and no
-- more processes wait for their end than Start and the monitors have started.
pub restarts-limited :
    (spec : ProcessSpec) (opts : ProcessOptions) (l : Life)
    → opts.max_restarts ≤ℤ max_int
    → Reach (new_life spec opts) l
    → (l.process.restarts ≡ pos (l.tries + l.backing_off))
      × (l.tries + l.backing_off ≤ pos_part opts.max_restarts)
      × (l.waiting ≤ l.starts + l.tries)
unfolding new_process
restarts-limited spec opts l small r =
    let c =
      Reach-Counted opts.max_restarts small (new_life spec opts) l r
        (refl, refl, omega arith, omega arith) in
    (c.1, c.2, c.3)
