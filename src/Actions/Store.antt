-- ===== src/Actions/Store.antt =====
-- internal/actions/store.go: the actions by their id.
pub mod Laws
use auxitalk.Base.{
  String, Bool, ◌||◌, List, [], Option, none, some, Error, Result, ok, err, ◌==◌, string_eq,
}
use auxitalk.Base.Map.{lookup, put, select, values}
use auxitalk.Types.Action.{ActionRequest, requested, confirmed}

abbrev pub Store : Type 0
Store = List (String × ActionRequest)

-- NewStore
abbrev pub new : Store
new = []

pub err_action_not_found : Error
err_action_not_found = "action not found"

unfoldable pub save : ActionRequest → Store → Store
save a s = put a.id a s

pub get : String → Store → Option ActionRequest
get id s = lookup id s

unfoldable pub update_status : String → String → Store → Store × Result ActionRequest
update_status id status s = elim (lookup id s) [
  | none ↦ (s, err err_action_not_found)
  | some a ↦ (put id (record a { status = status }) s, ok (record a { status = status }))
]

-- The order of an iteration over the map.
abbrev pub Order : Type 0
Order = Store → Store

unfoldable pub list : Order → Store → List ActionRequest
unfolding values
list order s = values (order s)

unfoldable pub is_pending : ActionRequest → Bool
is_pending a = a.status == requested || a.status == confirmed

unfoldable pub pending : Order → Store → List ActionRequest
unfolding select is_pending
pending order s = select is_pending (order s)
