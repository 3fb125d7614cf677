-- ===== src/Runtime/System/Begun.antt =====
-- The start of the daemon, and what follows it, keep what a step keeps.
use mathlib.Core.Path.{subst}
use auxitalk.Events.Bus.{Bus, subscribe}
use auxitalk.Runtime.Publish.{Publisher}
use auxitalk.Base.{
  ℕ, ℤ, String, List, [], ◌∷◌, Option, none, some, Error, ok, err, Result, ◌≡◌, refl, inl, inr,
  Option-cases, string_eq,
}
use auxitalk.Types.Value.{Value}
use auxitalk.Types.Event.{Time}
use auxitalk.Config.{Config}
use auxitalk.Workflows.Registry.{Registry}
use auxitalk.Runtime.Deps.{persistence, workflow, tracking, Runtime, Handler}
use auxitalk.Runtime.Restore.{open_storage, new_runtime}
use auxitalk.Runtime.Host.{Host}
use auxitalk.Runtime.Host.Loading.{new_host}
use auxitalk.Runtime.Host.Moved.{load_plugins-keeps}
use auxitalk.Runtime.System.{Daemon, Input, approvals_of, publish, steps}
use auxitalk.Runtime.System.Boot.{Begins, begun, subscribe_all, begin, boot}
use auxitalk.Runtime.System.Kept.{IsTracked, publish-kept, steps-kept}

-- What an option holds, if it holds something, satisfies the predicate.
abbrev pub Holds : {A : Type 0} → (A → Type 0) → Option A → Type 0
Holds P none = Unit
Holds P (some a) = P a

-- What a start ends with, if it waits, satisfies the predicate.
abbrev Waits : (Daemon → Type 0) → Result Daemon → Type 0
Waits P (err e) = Unit
Waits P (ok d) = P d

module _ (mode : String) (P : List String → Runtime → Type 0) (number : ℤ → Value)
    (time_at : ℕ → Time) (order wild_order : List (ℕ × Handler) → List (ℕ × Handler)) (nesting : ℕ)
    (listing rules_order : Registry → Registry) (t : IsTracked mode P time_at rules_order) where
  abbrev here : Publisher
  here = publish number time_at order wild_order nesting listing rules_order

  subscribe_all-kept : (hs : List Handler) (r : Runtime) → P [] r → P [] (subscribe_all hs r).0
  unfolding subscribe_all
  subscribe_all-kept [] r p = p
  subscribe_all-kept (h ∷ hs) r p =
      let b : Bus Handler = (subscribe "*" (some h) r.bus).0 in
      let q : P [] (record r { bus = b }) = (t.closed []).framed r _ refl refl refl refl refl p in
      elim (Option-cases (subscribe "*" (some h) r.bus).1.1) [
        | inl n ↦ rw (n, subscribe_all) (subscribe_all-kept hs _ q)
        | inr (e, m) ↦ rw (m, subscribe_all) q
      ]

  module _ (b : Begins) (c : Config) where
    begin-kept :
        (h : Host)
        → P [] (open_storage b.queries rules_order c b.opened h.runtime).0
        → P [] (begin number time_at here rules_order b c h).0.runtime
    unfolding begin
    begin-kept h p =
        let x = open_storage b.queries rules_order c b.opened h.runtime in
        let y = subscribe_all (persistence ∷ workflow ∷ tracking ∷ []) x.0 in
        let q = subscribe_all-kept (persistence ∷ workflow ∷ tracking ∷ []) x.0 p in
        elim (Option-cases x.1) [
          | inr (e, m) ↦ simp (begin, m) p
          | inl n ↦ elim (Option-cases y.1) [
            | inr (e, m) ↦ simp (begin, n, m) q
            | inl k ↦
                simp (begin, n, k)
                  (load_plugins-keeps time_at mode (P []) (t.closed []) here
                    (publish-kept mode P number time_at order wild_order nesting listing rules_order
                      t [])
                    number b.machine b.started c.plugins (record h { runtime = y.0 }) q)
          ]
        ]

    begun-Waits :
        (x : Host × Option Error)
        → P [] x.0.runtime
        → Waits (λ d. P [] d.configured.host.runtime) (begun number time_at here rules_order c x)
    begun-Waits (h, none) p = p
    begun-Waits (h, some e) p = tt

    module _
        (starts : (r : Runtime)
          → new_runtime rules_order c ≡ some r
          → P [] (open_storage b.queries rules_order c b.opened r).0) where
      boot-Holds :
          Holds
            (Waits (λ d. P [] d.configured.host.runtime))
            (boot number time_at here rules_order b c)
      unfolding boot new_host
      boot-Holds = elim (Option-cases (new_runtime rules_order c)) [
        | inl n ↦ simp (boot, new_host, n) tt
        | inr (r, e) ↦ simp (boot, new_host, e) (begun-Waits _ (begin-kept _ (starts r e)))
      ]

      -- What the start makes true, and each step keeps, is true after any inputs.
      pub daemon-kept :
          (d : Daemon) (is : List Input)
          → boot number time_at here rules_order b c ≡ some (ok d)
          → P
              (approvals_of is)
              (steps number time_at order wild_order nesting listing rules_order is
                d).configured.host.runtime
      daemon-kept d is e =
          steps-kept mode P number time_at order wild_order nesting listing rules_order t is [] d
            (subst (Holds (Waits (λ x. P [] x.configured.host.runtime))) e boot-Holds)
