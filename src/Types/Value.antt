-- ===== src/Types/Value.antt =====
-- Go's `any` and `map[string]any` as the program builds them: what `encoding/json` decodes to.
-- A nil map is the empty map. The fields of a map stand in one iteration order.
use Prim.Native.Nat.{Ordering}
use Prim.Native.String.{compare}
use auxitalk.Base.{
  String, Bool, true, false, Option, none, some, List, [], ◌∷◌, ◌==◌, string_eq, if◌then◌else◌,
  concat,
}

-- A number is known by the text that `fmt.Sprint` prints for it.
mutual
  pub data Fields : Type 0 where
    end : Fields
    field : String → Value → Fields → Fields

  pub data Items : Type 0 where
    nil : Items
    cons : Value → Items → Items

  pub data Value : Type 0 where
    str : String → Value
    num : String → Value
    bool : Bool → Value
    null : Value
    obj : Fields → Value
    arr : Items → Value

-- v, ok := m[key]
unfoldable pub get_field : String → Fields → Option Value
get_field key end = none
get_field key (field k v m) = if k == key then some v else get_field key m

-- m[key] = value
unfoldable pub put_field : String → Value → Fields → Fields
put_field key value end = field key value end
put_field key value (field k v m) =
    if k == key then field k value m else field k v (put_field key value m)

-- Insertion into a list sorted by key, and the insertion sort.
pub insert_sorted : String × String → List (String × String) → List (String × String)
insert_sorted (k, v) [] = (k, v) ∷ []
insert_sorted (k, v) ((j, w) ∷ m) = elim (compare j k) [
  | Ordering.lt ↦ (j, w) ∷ insert_sorted (k, v) m
  | _ ↦ (k, v) ∷ (j, w) ∷ m
]

pub sort_fields : List (String × String) → List (String × String)
sort_fields [] = []
sort_fields (e ∷ m) = insert_sorted e (sort_fields m)

-- `k:v` for each entry, with a space between two.
pub join_fields : List (String × String) → String
join_fields [] = ""
join_fields ((k, v) ∷ []) = concat (k ∷ ":" ∷ v ∷ [])
join_fields ((k, v) ∷ e ∷ m) = concat (k ∷ ":" ∷ v ∷ " " ∷ join_fields (e ∷ m) ∷ [])

pub join_items : List String → String
join_items [] = ""
join_items (s ∷ []) = s
join_items (s ∷ t ∷ r) = concat (s ∷ " " ∷ join_items (t ∷ r) ∷ [])

-- fmt.Sprint(v): maps print with their keys sorted.
unfoldable mutual
  pub sprint : Value → String
  sprint null = "<nil>"
  sprint (bool true) = "true"
  sprint (bool false) = "false"
  sprint (num n) = n
  sprint (str s) = s
  sprint (arr xs) = concat ("[" ∷ join_items (sprint_items xs) ∷ "]" ∷ [])
  sprint (obj m) = concat ("map[" ∷ join_fields (sort_fields (sprint_fields m)) ∷ "]" ∷ [])

  pub sprint_items : Items → List String
  sprint_items nil = []
  sprint_items (cons v xs) = sprint v ∷ sprint_items xs

  pub sprint_fields : Fields → List (String × String)
  sprint_fields end = []
  sprint_fields (field k v m) = (k, sprint v) ∷ sprint_fields m
