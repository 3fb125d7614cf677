-- ===== src/Events/Bus/Handlers.antt =====
-- Which handler a subscription to a type has, and how subscribing and removing change it.
use auxitalk.Base.{
  ℕ, ◌+◌, ◌%◌, ◌^◌, ◌<◌, String, true, false, List, [], ◌∷◌, ◌||◌, ◌&&◌, Option, none, some, ◌≡◌,
  refl, arith, eq_iff, ◌==◌, nat_eq, string_eq, if◌then◌else◌, inl, inr, Bool-cases, Option-cases,
}
use auxitalk.Base.Map.{lookup, put, delete, IsMap, lookup-put, lookup-delete}
use auxitalk.Events.Bus.{Bus, typed, subscribe, remove, is_empty_map}

-- "" and "*" both stand for all events.
abbrev pub topic : String → String
topic t = if t == "" || t == "*" then "*" else t

pub id_after : (n : ℕ) → n + 1 < 2 ^ 64 → (n + 1) % 2 ^ 64 ≡ n + 1
id_after n h = omega arith

star_ne : (t : String) → (t == "" || t == "*") ≡ false → ("*" == t) ≡ false
star_ne t h = ground (arith, eq_iff t "*", eq_iff "*" t)

ne_star : (t : String) → (t == "" || t == "*") ≡ false → (t == "*") ≡ false
ne_star t h = ground arith

pub named : (t : String) → (topic t == "") ≡ false
named t = elim (Bool-cases (t == "" || t == "*")) [ inl w ↦ rw w | inr n ↦ rw n (ground arith) ]

pub topic-topic : (t : String) → topic (topic t) ≡ topic t
topic-topic t = elim (Bool-cases (t == "" || t == "*")) [ inl w ↦ rw w | inr n ↦ rw (n, n) ]

module _ {H : Type 0} where
  -- The handler with an id that a subscription to `t` has.
  unfoldable pub handler_at : String → ℕ → Bus H → Option H
  handler_at t i b =
      if t == "" || t == "*" then lookup i b.wildcards else lookup i (typed t b.subscribers)

  pub record IsBus (b : Bus H) : Type 0 where
    pub wild_map : IsMap b.wildcards
    pub subs_map : IsMap b.subscribers
    pub typed_map : (t : String) → IsMap (typed t b.subscribers)
    pub below : (t : String) (i : ℕ) → b.next_id < i → handler_at t i b ≡ none

  pub typed-put :
      (t u : String) (m : List (ℕ × H)) (subs : List (String × List (ℕ × H)))
      → typed u (put t m subs) ≡ (if t == u then m else typed u subs)
  unfolding typed
  typed-put t u m subs = ground (arith, lookup-put t u m subs)

  typed-delete :
      (t u : String) (subs : List (String × List (ℕ × H)))
      → IsMap subs
      → typed u (delete t subs) ≡ (if t == u then [] else typed u subs)
  unfolding typed
  typed-delete t u subs h = ground (arith, lookup-delete t u subs h)

  -- A subscription adds its handler, under the next id, to the subscriptions to its type (or to all
  -- events), and changes no other.
  pub handler_at-subscribe :
      (t u : String) (i : ℕ) (h : H) (b : Bus H)
      → b.next_id + 1 < 2 ^ 64
      → handler_at u i (subscribe t (some h) b).0
        ≡ (if topic t == topic u && b.next_id + 1 == i then some h else handler_at u i b)
  unfolding handler_at subscribe
  handler_at-subscribe t u i h b lim = elim (Bool-cases (t == "" || t == "*")) [
    | inl wt ↦ elim (Bool-cases (u == "" || u == "*")) [
      | inl wu ↦ rw (wt, wu, id_after b.next_id lim) (lookup-put (b.next_id + 1) i h b.wildcards)
      | inr nu ↦ rw (wt, nu, star_ne u nu)
    ]
    | inr nt ↦ elim (Bool-cases (u == "" || u == "*")) [
      | inl wu ↦ rw (nt, wu, ne_star t nt)
      | inr nu ↦
          rw
            (
              nt,
              nu,
              id_after b.next_id lim,
              typed-put t u (put (b.next_id + 1) h (typed t b.subscribers)) b.subscribers,
            )
            (ground (arith, eq_iff t u, lookup-put (b.next_id + 1) i h (typed t b.subscribers)))
    ]
  ]

  -- What `remove` leaves of the typed subscriptions.
  removed : String → ℕ → List (String × List (ℕ × H)) → List (String × List (ℕ × H))
  removed t k subs = elim (lookup t subs) [
    | none ↦ subs
    | some m ↦ if is_empty_map (delete k m) then delete t subs else put t (delete k m) subs
  ]

  remove_wild :
      (t : String) (k : ℕ) (b : Bus H)
      → (t == "*") ≡ true
      → remove t k b ≡ record b { wildcards = delete k b.wildcards }
  unfolding remove
  remove_wild t k b w = ground arith

  remove_lem :
      (t : String) (k : ℕ) (b : Bus H)
      → (t == "*") ≡ false
      → remove t k b ≡ record b { subscribers = removed t k b.subscribers }
  unfolding remove removed
  remove_lem t k b nt = ground arith

  empty-lookup : (i : ℕ) (m : List (ℕ × H)) → is_empty_map m ≡ true → lookup i m ≡ none
  unfolding lookup
  empty-lookup i [] h = refl
  empty-lookup i (x ∷ m) h = cc

  lookup-removed :
      (t u : String) (k i : ℕ) (subs : List (String × List (ℕ × H)))
      → IsMap (typed t subs)
      → IsMap subs
      → lookup i (typed u (removed t k subs))
        ≡ (if t == u && k == i then none else lookup i (typed u subs))
  unfolding removed typed lookup
  lookup-removed t u k i subs tm sm = elim (Option-cases (lookup t subs)) [
    | inl e ↦ rw (e, removed) (ground (arith, eq_iff t u))
    | inr (m, e) ↦ elim (Bool-cases (is_empty_map (delete k m))) [
      | inl emp ↦
          rw (e, removed, emp)
            (ground (
              arith,
              eq_iff t u,
              lookup-delete t u subs sm,
              lookup-delete k i m (rw (e, typed) at tm),
              empty-lookup i (delete k m) emp,
            ))
      | inr full ↦
          rw (e, removed, full)
            (ground (
              arith,
              eq_iff t u,
              lookup-put t u (delete k m) subs,
              lookup-delete k i m (rw (e, typed) at tm),
            ))
    ]
  ]

  -- Removing a handler takes it from the subscriptions to its type, and changes no other.
  pub handler_at-remove :
      (t u : String) (k i : ℕ) (b : Bus H)
      → (t == "") ≡ false
      → IsBus b
      → handler_at u i (remove t k b)
        ≡ (if topic t == topic u && k == i then none else handler_at u i b)
  unfolding handler_at
  handler_at-remove t u k i b ne h = elim (Bool-cases (t == "*")) [
    | inl wt ↦ elim (Bool-cases (u == "" || u == "*")) [
      | inl wu ↦ rw (remove_wild t k b wt, wt, ne, wu) (lookup-delete k i b.wildcards h.wild_map)
      | inr nu ↦ rw (remove_wild t k b wt, wt, ne, nu, star_ne u nu)
    ]
    | inr nt ↦ elim (Bool-cases (u == "" || u == "*")) [
      | inl wu ↦ rw (remove_lem t k b nt, ne, nt, wu, nt)
      | inr nu ↦
          rw (remove_lem t k b nt, nt, ne, nu)
            (lookup-removed t u k i b.subscribers (h.typed_map t) h.subs_map)
    ]
  ]
