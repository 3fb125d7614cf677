-- ===== src/Runtime/System/Boot.antt =====
-- New and Run, up to the loops that the daemon's inputs stand for.
use auxitalk.Base.{ℤ, List, [], ◌∷◌, Option, none, some, Error, Result, ok, err, ℕ}
use auxitalk.Types.Value.{Value}
use auxitalk.Types.Event.{Time}
use auxitalk.Config.{Config}
use auxitalk.Events.Bus.{subscribe}
use auxitalk.Storage.{Storage}
use auxitalk.Workflows.Executor.{new_executor}
use auxitalk.Workflows.Registry.{Registry}
use auxitalk.Runtime.Deps.{Runtime, Handler, persistence, workflow, tracking}
use auxitalk.Runtime.Publish.{Publisher}
use auxitalk.Runtime.Restore.{Queries, open_storage}
use auxitalk.Runtime.Host.{Host}
use auxitalk.Runtime.Host.Loading.{Machine, new_host, load_plugins}
use auxitalk.Runtime.System.{Daemon}

-- Subscribe("*", …), for each, up to the first error
unfoldable pub subscribe_all : List Handler → Runtime → Runtime × Option Error
subscribe_all [] r = (r, none)
subscribe_all (h ∷ hs) r =
    let (b, (s, failed)) = subscribe "*" (some h) r.bus in
    elim failed [
      | some e ↦ (record r { bus = b }, some e)
      | none ↦ subscribe_all hs (record r { bus = b })
    ]

-- What the start meets: the database that Open answers, its queries, the manifests and processes,
-- and the time that Start reads.
pub record Begins : Type 0 where
  pub opened : Result Storage
  pub queries : Queries
  pub machine : Machine
  pub started : Time

module _ (number : ℤ → Value) (time_at : ℕ → Time) (publish : Publisher)
    (rules_order : Registry → Registry) where
  -- Run, up to the start of healthLoop; the control server has no state of its own.
  unfoldable pub begin : Begins → Config → Host → Host × Option Error
  unfolding open_storage subscribe_all load_plugins
  begin b c h =
      let (r, failed) = open_storage b.queries rules_order c b.opened h.runtime in
      elim failed [
        | some e ↦ (record h { runtime = r }, some e)
        | none ↦
            (let (r', refused) = subscribe_all (persistence ∷ workflow ∷ tracking ∷ []) r in
              elim refused [
                | some e ↦ (record h { runtime = r' }, some e)
                | none ↦
                    load_plugins number time_at publish b.machine b.started c.plugins
                      (record h { runtime = r' })
              ])
      ]

  abbrev pub begun : Config → Host × Option Error → Result Daemon
  begun c (h, some e) = err e
  begun c (h, none) = ok (record {
    configured = record { host = h; plugins = c.plugins };
    executor = some new_executor;
    failures = [];
  })

  -- New, which is `none` if it panics, and then Run, with its error if it ends before it waits.
  unfoldable pub boot : Begins → Config → Option (Result Daemon)
  unfolding begin new_host
  boot b c = elim (new_host rules_order c) [ none ↦ none | some h ↦ some (begun c (begin b c h)) ]
