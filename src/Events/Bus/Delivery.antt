-- ===== src/Events/Bus/Delivery.antt =====
-- What Publish does: refused events touch nothing; an accepted event reaches every handler.
use auxitalk.Base.{
  ℕ, pos, ◌≤ℤ◌, List, [], ◌∷◌, ◌++◌, map, Option, none, Error, ◌≡◌, ◌↔◌, refl, sym, ap, ◌∙◌, arith,
  All,
}
use mathlib.Core.List.{append_assoc, append-nil}
use auxitalk.Types.Event.{Event}
use auxitalk.Types.Event
use auxitalk.Base.{ltb_ℤ, Bool-cases, Option-cases, inl, inr}
use auxitalk.Events.Bus.{join_errors}
use auxitalk.Events.Bus.{
  Bus, Outcome, error_of, call_all, publish, deliver, record_event, snapshot_handlers,
}

module _ {H S : Type 0} (bus : S → Bus H) (set_bus : Bus H → S → S)
    (call : H → Event → S → S × Outcome) (order wild_order : List (ℕ × H) → List (ℕ × H)) where
  -- An event that is not refused is recorded, and then delivered to the handlers of the snapshot.
  pub publish_accepted :
      (e : Event) (s : S)
      → e.depth ≤ℤ pos 20
      → Event.validate e ≡ none
      → publish bus set_bus call order wild_order e s
        ≡ deliver bus set_bus call order wild_order
            (snapshot_handlers order wild_order e.type (bus s))
            e
            (set_bus (record_event e (bus s)) s)
  unfolding publish
  publish_accepted e s d v = ground arith

  module _ {ℓ} (P : S → Type ℓ) (e : Event) (keeps : (h : H) (s : S) → P s → P (call h e s).0) where
    call_all_keeps :
        (hs : List H) (s : S) → P s → P (call_all bus set_bus call order wild_order hs e s).0
    unfolding call_all
    call_all_keeps [] s p = p
    call_all_keeps (h ∷ hs) s p = call_all_keeps hs (call h e s).0 (keeps h s p)

    -- What every handler and the recording keep, Publish keeps.
    pub publish_keeps :
        ((b : Bus H) (s : S) → P s → P (set_bus b s))
        → (s : S) → P s
        → P (publish bus set_bus call order wild_order e s).0
    unfolding publish deliver
    publish_keeps k s p = elim (Bool-cases (ltb_ℤ (pos 20) e.depth)) [
      | inl deep ↦ rw deep p
      | inr shallow ↦ elim (Option-cases (Event.validate e)) [
        | inr (x, bad) ↦ rw (shallow, bad, publish) p
        | inl good ↦
            rw (shallow, good, publish)
              (call_all_keeps (snapshot_handlers order wild_order e.type (bus s)) _
                (k (record_event e (bus s)) s p))
      ]
    ]

-- A bus beside a log of calls, in which each handler ends as `outcome` says.
module _ {H : Type 0} (outcome : H → Event → Outcome)
    (order wild_order : List (ℕ × H) → List (ℕ × H)) where
  abbrev pub Logged : Type 0
  Logged = Bus H × List (H × Event)

  abbrev pub log_call : H → Event → Logged → Logged × Outcome
  log_call h e (b, log) = ((b, log ++ (h, e) ∷ []), outcome h e)

  abbrev pub publish_logged : Event → Logged → Logged × Option Error
  publish_logged = publish (λ s. s.0) (λ b s. (b, s.1)) log_call order wild_order

  abbrev call_all_logged : List H → Event → Logged → Logged × List Error
  call_all_logged = call_all (λ s. s.0) (λ b s. (b, s.1)) log_call order wild_order

  call_all-log :
      (hs : List H) (e : Event) (b : Bus H) (log : List (H × Event))
      → (call_all_logged hs e (b, log)).0 ≡ (b, log ++ map (λ h. (h, e)) hs)
  unfolding call_all
  call_all-log [] e b log = ap (λ l. (b, l)) (sym (append-nil log))
  call_all-log (h ∷ hs) e b log =
      call_all-log hs e b (log ++ (h, e) ∷ [])
      ∙ ap (λ l. (b, l)) (append_assoc log ((h, e) ∷ []) (map (λ k. (k, e)) hs))

  no_errors-All :
      (hs : List H) (e : Event) (s : Logged)
      → ((call_all_logged hs e s).1 ≡ []) ↔ All (λ h. error_of e (outcome h e) ≡ none) hs
  unfolding call_all
  no_errors-All [] e s = (λ _. tt, λ _. refl)
  no_errors-All (h ∷ hs) e s = ground (arith, no_errors-All hs e (log_call h e s).0)

  join_errors-none : (es : List Error) → (join_errors es ≡ none) ↔ (es ≡ [])
  unfolding join_errors
  join_errors-none [] = (λ _. refl, λ _. refl)
  join_errors-none (x ∷ es) = ground arith

  -- An accepted event reaches each handler of the snapshot once, in order, whatever the handlers
  -- before it return, and is recorded; Publish returns no error exactly when no handler fails.
  pub publish_reaches :
      (e : Event) (b : Bus H) (log : List (H × Event))
      → e.depth ≤ℤ pos 20
      → Event.validate e ≡ none
      → let hs = snapshot_handlers order wild_order e.type b in
        ((publish_logged e (b, log)).0 ≡ (record_event e b, log ++ map (λ h. (h, e)) hs))
        × (((publish_logged e (b, log)).1 ≡ none) ↔ All (λ h. error_of e (outcome h e) ≡ none) hs)
  unfolding deliver
  publish_reaches e b log d v =
      let hs = snapshot_handlers order wild_order e.type b in
      let accepted =
        publish_accepted {H = H} {S = Logged} (λ s. s.0) (λ b s. (b, s.1)) log_call order wild_order
          e (b, log) d v in
      let errs = no_errors-All hs e (record_event e b, log) in
      let joined = join_errors-none (call_all_logged hs e (record_event e b, log)).1 in
      rw accepted (
        call_all-log hs e (record_event e b) log,
        (λ p. errs.0 (joined.0 p), λ q. joined.1 (errs.1 q)),
      )
