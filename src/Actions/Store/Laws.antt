-- ===== src/Actions/Store/Laws.antt =====
-- The store keeps each action under its own id; updates touch one action; the pending actions are
-- those that a lookup finds requested or confirmed.
use mathlib.Core.List.{Mem}
use auxitalk.Base.{
  String, true, [], Option, none, some, ok, err, ◌≡◌, ◌↔◌, inl, inr, arith, ◌==◌, string_eq, eq_iff,
  if◌then◌else◌, String-set, Option-cases, ◌||◌,
}
use auxitalk.Base.Map.{lookup, put, IsMap, lookup-put, put-IsMap}
use auxitalk.Base.Map.Range.{IsOrder, mem-select}
use auxitalk.Types.Action.{ActionRequest, requested, confirmed}
use auxitalk.Actions.Store.{
  Store, Order, save, get, update_status, is_pending, pending, err_action_not_found,
}

pub record IsStore (s : Store) : Type 0 where
  pub is_map : IsMap s
  pub keyed : (k : String) (a : ActionRequest) → lookup k s ≡ some a → k ≡ a.id

pub empty-IsStore : IsStore []
unfolding lookup
empty-IsStore = record { is_map = tt; keyed = λ k a p. ground arith }

put-IsStore : (a : ActionRequest) (s : Store) → IsStore s → IsStore (put a.id a s)
put-IsStore a s h = record {
  is_map = put-IsMap a.id a s h.is_map;
  keyed = λ k b p. ground (arith, lookup-put a.id k a s, eq_iff a.id k, h.keyed k b);
}

pub update_status-IsStore :
    (id status : String) (s : Store) → IsStore s → IsStore (update_status id status s).0
unfolding update_status
update_status-IsStore id status s h = elim (Option-cases (lookup id s)) [
  | inl e ↦ rw (e, update_status) h
  | inr (b, e) ↦
      rw (e, update_status) (rw (h.keyed id b e) (put-IsStore (record b { status = status }) s h))
]

-- Saving an action and changing a status keep every action under its own id, ids unique.
pub store-IsStore :
    (a : ActionRequest) (id status : String) (s : Store)
    → IsStore s
    → IsStore (save a s) × IsStore (update_status id status s).0
unfolding save
store-IsStore a id status s h = (put-IsStore a s h, update_status-IsStore id status s h)

abbrev pub with_status : String → Option ActionRequest → Option ActionRequest
with_status status none = none
with_status status (some a) = some (record a { status = status })

-- A status change changes the status of the action with that id, nothing else of it and no other
-- action; it fails exactly when there is no such action, and then changes nothing.
pub get-update_status :
    (id j status : String) (s : Store)
    → (get j (update_status id status s).0
        ≡ (if id == j then with_status status (get j s) else get j s))
      × ((update_status id status s).1 ≡ elim (with_status status (get id s)) [
        | none ↦ err err_action_not_found
        | some a ↦ ok a
      ])
unfolding get update_status
get-update_status id j status s = elim (Option-cases (lookup id s)) [
  | inl e ↦ (ground (arith, eq_iff id j), ground arith)
  | inr (b, e) ↦
      (ground (arith, eq_iff id j, lookup-put id j (record b { status = status }) s), ground arith)
]

ActionRequest_set : IsSet (Option ActionRequest)
ActionRequest_set = hlevel String-set

-- In whatever order the map is iterated, an action is listed as pending exactly when it is the one
-- stored under its id and its status is requested or confirmed.
pub mem-pending :
    (order : Order) (a : ActionRequest) (s : Store)
    → IsOrder order
    → IsStore s
    → Mem a (pending order s)
      ↔ ((get a.id s ≡ some a) × (a.status == requested || a.status == confirmed ≡ true))
unfolding pending get
mem-pending order a s o h =
    mem-select ActionRequest_set (λ b. b.id) order is_pending a s o h.is_map h.keyed
