-- ===== src/Events/Tests.antt =====
-- Runs of the bus, with texts for handlers.
use auxitalk.Base.{
  ◌≤◌, pos, String, [], ◌∷◌, ◌++◌, map, none, some, ◌≡◌, ◌↔◌, refl, arith, ◌==◌, nat_eq, string_eq,
  if◌then◌else◌, length, All,
}
use auxitalk.Types.Event.{Event}
use auxitalk.Base.Map.{lookup}
use auxitalk.Base.Text.{concat}
use auxitalk.Types.Samples.{greeting, greeting_valid}
use auxitalk.Events.Bus.{
  Bus, Subscription, Outcome, returned, timed_out, subscribe, unsubscribe, typed, snapshot_handlers,
  record_event, error_of, join_texts, join_errors,
}
use auxitalk.Events.Bus.History.{replayed, kept, history-kept}
use auxitalk.Events.Bus.Handlers.{IsBus, handler_at}
use auxitalk.Events.Bus.Registration.{subscribe-IsBus, unsubscribe-subscribe}
use auxitalk.Events.Bus.Delivery.{publish_logged, publish_reaches}

abbrev empty : Bus String
empty = record {
  handler_timeout = pos 5;
  history_limit = pos 2;
  subscribers = [];
  wildcards = [];
  history = [];
  next_id = 0;
}

abbrev two : Bus String
two = record empty {
  subscribers = ("message.received", (1, "h") ∷ []) ∷ [];
  wildcards = (2, "w") ∷ [];
  next_id = 2;
}

abbrev ends : String → Event → Outcome
ends h e = if h == "h" then timed_out "deadline" else returned none

publish_reaches_example :
    let hs = snapshot_handlers (λ m. m) (λ m. m) "message.received" two in
    ((publish_logged ends (λ m. m) (λ m. m) greeting (two, [])).0
      ≡ (record_event greeting two, [] ++ map (λ h. (h, greeting)) hs))
    × (((publish_logged ends (λ m. m) (λ m. m) greeting (two, [])).1 ≡ none)
        ↔ All (λ h. error_of greeting (ends h greeting) ≡ none) hs)
publish_reaches_example =
    publish_reaches ends (λ m. m) (λ m. m) greeting two [] (omega arith) greeting_valid

abbrev next : Event
next = record greeting { id = "e2" }

history-kept_example :
    (replayed String (pos 5) (pos 1) (greeting ∷ []) (next ∷ [])
      ≡ kept (pos 1) (greeting ∷ next ∷ []))
    × (length (replayed String (pos 5) (pos 1) (greeting ∷ []) (next ∷ [])) ≤ 1)
history-kept_example = history-kept String (pos 5) (pos 1) (greeting ∷ []) (next ∷ [])

empty-IsBus : IsBus empty
unfolding handler_at typed lookup
empty-IsBus = record {
  wild_map = tt;
  subs_map = tt;
  typed_map = λ t. tt;
  below = λ t i l. ground arith;
}

abbrev subscribed : Bus String
subscribed = (subscribe "message.received" (some "h") empty).0

subscribe-IsBus_example :
    IsBus subscribed
    × ((sub : Subscription) × ((subscribe "message.received" (some "h") empty).1 ≡ (some sub, none))
        × (handler_at "message.received" sub.id empty ≡ none)
        × (handler_at "message.received" 1 subscribed ≡ (if sub.id == 1 then some "h" else none)))
unfolding handler_at typed lookup
subscribe-IsBus_example =
    subscribe-IsBus "message.received" "message.received" 1 "h" empty (omega arith) empty-IsBus

unsubscribe-subscribe_example :
    (sub : Subscription) × ((subscribe "" (some "h") empty).1 ≡ (some sub, none))
    × (handler_at "*" 1 (unsubscribe sub (subscribe "" (some "h") empty).0).0
        ≡ handler_at "*" 1 empty)
unsubscribe-subscribe_example = unsubscribe-subscribe "" "*" 1 "h" empty (omega arith) empty-IsBus

joined : join_errors ("a" ∷ "b" ∷ []) ≡ some "a\nb"
unfolding join_errors join_texts concat
joined = refl
