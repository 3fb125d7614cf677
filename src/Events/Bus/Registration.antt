-- ===== src/Events/Bus/Registration.antt =====
-- Subscribing and unsubscribing touch one handler, under an id of its own.
use auxitalk.Base.{
  ℕ, ◌+◌, ◌%◌, ◌^◌, ◌<◌, String, Bool, true, false, List, ◌||◌, ◌&&◌, none, some, ◌≡◌, ◌∙◌, arith,
  ◌==◌, nat_eq, string_eq, if◌then◌else◌, inl, inr, Bool-cases,
}
use auxitalk.Base.Map.{put, IsMap, put-IsMap}
use auxitalk.Events.Bus.{Bus, Subscription, typed, subscribe, unsubscribe}
use auxitalk.Events.Bus.Handlers.{
  topic, id_after, named, topic-topic, handler_at, IsBus, typed-put, handler_at-subscribe,
  handler_at-remove,
}

-- The subscription that `subscribe` returns.
abbrev given : String → ℕ → Subscription
given t n = record { event_type = topic t; id = (n + 1) % 2 ^ 64; used = false }

module _ {H : Type 0} where
  handed :
      (t : String) (h : H) (b : Bus H)
      → (subscribe t (some h) b).1 ≡ (some (given t b.next_id), none)
  unfolding subscribe
  handed t h b = ground arith

  next_id-subscribe :
      (t : String) (h : H) (b : Bus H)
      → b.next_id + 1 < 2 ^ 64
      → (subscribe t (some h) b).0.next_id ≡ b.next_id + 1
  unfolding subscribe
  next_id-subscribe t h b lim = ground (arith, id_after b.next_id lim)

  IsMap-if : (c : Bool) (m m' : List (ℕ × H)) → IsMap m → IsMap m' → IsMap (if c then m else m')
  IsMap-if true m m' h h' = h
  IsMap-if false m m' h h' = h'

  abbrev HasMaps : Bus H → Type 0
  HasMaps b =
      IsMap b.wildcards × IsMap b.subscribers × ((u : String) → IsMap (typed u b.subscribers))

  subscribe-maps : (t : String) (h : H) (b : Bus H) → IsBus b → HasMaps (subscribe t (some h) b).0
  unfolding subscribe
  subscribe-maps t h b v = elim (Bool-cases (t == "" || t == "*")) [
    | inl w ↦
        rw w
          (put-IsMap ((b.next_id + 1) % 2 ^ 64) h b.wildcards v.wild_map, v.subs_map, v.typed_map)
    | inr n ↦
        let id = (b.next_id + 1) % 2 ^ 64 in
        let m : List (ℕ × H) = put id h (typed t b.subscribers) in
        let mm : IsMap m = put-IsMap id h (typed t b.subscribers) (v.typed_map t) in
        rw n (
          v.wild_map,
          put-IsMap t m b.subscribers v.subs_map,
          λ u.
              rw (typed-put t u m b.subscribers)
                (IsMap-if (t == u) m (typed u b.subscribers) mm (v.typed_map u)),
        )
  ]

  keeps-IsBus :
      (t : String) (h : H) (b : Bus H)
      → b.next_id + 1 < 2 ^ 64
      → IsBus b
      → IsBus (subscribe t (some h) b).0
  keeps-IsBus t h b lim v = record {
    wild_map = (subscribe-maps t h b v).0;
    subs_map = (subscribe-maps t h b v).1;
    typed_map = (subscribe-maps t h b v).2;
    below = λ u i l.
        let fresh : b.next_id + 1 < i = rw (next_id-subscribe t h b lim) at l in
        handler_at-subscribe t u i h b lim ∙ ground (arith, v.below u i);
  }

  -- On a bus with maps whose keys are distinct and with no handler under an id above `next_id`,
  -- which is below 2^64 - 1: the bus is such a bus after subscribing too. The returned subscription
  -- has an id that no handler of any type was under, the new handler is under it for the type (or
  -- for all types), and every other handler is where it was.
  pub subscribe-IsBus :
      (t u : String) (i : ℕ) (h : H) (b : Bus H)
      → b.next_id + 1 < 2 ^ 64
      → IsBus b
      → IsBus (subscribe t (some h) b).0
        × ((sub : Subscription) × ((subscribe t (some h) b).1 ≡ (some sub, none))
            × (handler_at u sub.id b ≡ none)
            × (handler_at u i (subscribe t (some h) b).0
                ≡ (if topic t == topic u && sub.id == i then some h else handler_at u i b)))
  subscribe-IsBus t u i h b lim v = (
    keeps-IsBus t h b lim v,
    (
      given t b.next_id,
      handed t h b,
      rw (id_after b.next_id lim) (v.below u (b.next_id + 1) (omega arith)),
      rw (id_after b.next_id lim) (handler_at-subscribe t u i h b lim),
    ),
  )

  -- On a bus with maps whose keys are distinct and with no handler under an id above `next_id`,
  -- which is below 2^64 - 1: undoing at once the subscription that `subscribe` has returned leaves
  -- every subscription as it was. The new handler is gone, and no other has been touched.
  pub unsubscribe-subscribe :
      (t u : String) (i : ℕ) (h : H) (b : Bus H)
      → b.next_id + 1 < 2 ^ 64
      → IsBus b
      → (sub : Subscription) × ((subscribe t (some h) b).1 ≡ (some sub, none))
        × (handler_at u i (unsubscribe sub (subscribe t (some h) b).0).0 ≡ handler_at u i b)
  unfolding unsubscribe
  unsubscribe-subscribe t u i h b lim v = (
    given t b.next_id,
    handed t h b,
    handler_at-remove (topic t) u ((b.next_id + 1) % 2 ^ 64) i (subscribe t (some h) b).0 (named t)
          (keeps-IsBus t h b lim v)
        ∙ rw (id_after b.next_id lim, handler_at-subscribe t u i h b lim, topic-topic t)
            (ground (arith, v.below u (b.next_id + 1))),
  )
