-- ===== src/Events/Bus.antt =====
-- internal/events/bus.go. `H` stands for the handlers, compared by nothing but their ids.
pub mod History
pub mod Handlers
pub mod Registration
pub mod Delivery
use auxitalk.Base.{
  ℕ, ◌+◌, ◌%◌, ◌^◌, ℤ, pos, pos_part, ltb_ℤ, String, Bool, true, false, List, [], ◌∷◌, ◌++◌, ◌||◌,
  Option, none, some, Error, ◌==◌, nat_eq, string_eq, if◌then◌else◌, concat, last_of,
}
use auxitalk.Base.Map.{lookup, put, delete, values}
use auxitalk.Types.Event.{Event}
use auxitalk.Types.Event

pub record Bus (H : Type 0) : Type 0 where
  pub handler_timeout : ℤ  -- nanoseconds
  pub history_limit : ℤ
  pub subscribers : List (String × List (ℕ × H))
  pub wildcards : List (ℕ × H)
  pub history : List Event
  pub next_id : ℕ  -- uint64

pub record Subscription : Type 0 where
  pub event_type : String
  pub id : ℕ
  pub used : Bool  -- the sync.Once has run

-- x <= 0
abbrev pub not_positive : ℤ → Bool
not_positive x = ltb_ℤ x (pos 1)

unfoldable pub new : {H : Type 0} → ℤ → ℤ → Bus H
new timeout limit = record {
  handler_timeout = if not_positive timeout then pos 5_000_000_000 else timeout;
  history_limit = limit;
  subscribers = [];
  wildcards = [];
  history = [];
  next_id = 0;
}

-- `append` to the history, cut to the limit
pub append_history : ℤ → List Event → Event → List Event
append_history limit history e = last_of (pos_part limit) (history ++ e ∷ [])

-- the loop of RestoreHistory
unfoldable pub restore_loop : ℤ → List Event → List Event → List Event
restore_loop limit history [] = history
restore_loop limit history (e ∷ es) = restore_loop limit (append_history limit history e) es

module _ {H : Type 0} where
  -- m[key] for a map of maps: a missing map reads as an empty one
  unfoldable pub typed : String → List (String × List (ℕ × H)) → List (ℕ × H)
  typed t subs = elim (lookup t subs) [ none ↦ [] | some m ↦ m ]

  unfoldable pub subscribe :
      String → Option H → Bus H → Bus H × (Option Subscription × Option Error)
  subscribe t none b = (b, (none, some "event handler is required"))
  subscribe t (some h) b =
      let id = (b.next_id + 1) % 2 ^ 64 in
      if t == "" || t == "*"
      then (
        record b { next_id = id; wildcards = put id h b.wildcards },
        (some (record { event_type = "*"; id = id; used = false }), none),
      )
      else (
        record b {
          next_id = id;
          subscribers = put t (put id h (typed t b.subscribers)) b.subscribers;
        },
        (some (record { event_type = t; id = id; used = false }), none),
      )

  abbrev pub is_empty_map : List (ℕ × H) → Bool
  is_empty_map [] = true
  is_empty_map (x ∷ m) = false

  -- Bus.unsubscribe
  pub remove : String → ℕ → Bus H → Bus H
  remove t id b =
      if t == "*"
      then record b { wildcards = delete id b.wildcards }
      else (elim (lookup t b.subscribers) [
        | none ↦ b
        | some m ↦
            if is_empty_map (delete id m)
            then record b { subscribers = delete t b.subscribers }
            else record b { subscribers = put t (delete id m) b.subscribers }
      ])

  -- Subscription.Unsubscribe, on a subscription of this bus
  pub unsubscribe : Subscription → Bus H → Bus H × Subscription
  unsubscribe s b =
      if s.used then (b, s) else (remove s.event_type s.id b, record s { used = true })

  -- Each of the two iterations has an order of its own.
  pub snapshot_handlers : (order wild_order : List (ℕ × H) → List (ℕ × H)) → String → Bus H → List H
  snapshot_handlers order wild_order t b =
      values (order (typed t b.subscribers)) ++ values (wild_order b.wildcards)

  -- Bus.record
  pub record_event : Event → Bus H → Bus H
  record_event e b =
      if not_positive b.history_limit
      then b
      else record b { history = append_history b.history_limit b.history e }

  unfoldable pub restore_history : List Event → Bus H → Bus H
  restore_history events b =
      if not_positive b.history_limit
      then b
      else record b { history = restore_loop b.history_limit [] events }

-- How a call of a handler ends: `done` has its error, its context's deadline passes first, or the
-- publisher's context is done first.
pub data Outcome : Type 0 where
  returned : Option Error → Outcome
  timed_out : Error → Outcome
  cancelled : Error → Outcome

-- the `select` of callHandler
pub error_of : Event → Outcome → Option Error
error_of e (returned r) = r
error_of e (timed_out x) = some (concat ("event handler timeout for " ∷ e.type ∷ ": " ∷ x ∷ []))
error_of e (cancelled x) = some x

-- errors.Join: the texts on lines of their own, nil for no error
unfoldable pub join_texts : Error → List Error → Error
join_texts x [] = x
join_texts x (y ∷ ys) = concat (x ∷ "\n" ∷ join_texts y ys ∷ [])

unfoldable pub join_errors : List Error → Option Error
join_errors [] = none
join_errors (x ∷ xs) = some (join_texts x xs)

-- Publish works on a state `S` that holds the bus, since handlers may publish in their turn.
-- `call` runs one handler.
module _ {H S : Type 0} (bus : S → Bus H) (set_bus : Bus H → S → S)
    (call : H → Event → S → S × Outcome) (order wild_order : List (ℕ × H) → List (ℕ × H)) where
  abbrev add_error : Option Error → List Error → List Error
  add_error none es = es
  add_error (some x) es = x ∷ es

  -- the loop over the handlers, with the errors in order
  pub call_all : List H → Event → S → S × List Error
  call_all [] e s = (s, [])
  call_all (h ∷ hs) e s =
      let (s', o) = call h e s in
      let (s'', es) = call_all hs e s' in (s'', add_error (error_of e o) es)

  pub deliver : List H → Event → S → S × Option Error
  unfolding call_all
  deliver handlers e s = let (s', es) = call_all handlers e s in (s', join_errors es)

  pub publish : Event → S → S × Option Error
  unfolding deliver
  publish e s =
      if ltb_ℤ (pos 20) e.depth
      then (
        s,
        some (
            concat
              ("event bus cycle detected: max depth 20 exceeded for event type " ∷ e.type ∷ [])),
      )
      else (elim (Event.validate e) [
        | some x ↦ (s, some x)
        | none ↦
            deliver (snapshot_handlers order wild_order e.type (bus s)) e
              (set_bus (record_event e (bus s)) s)
      ])
