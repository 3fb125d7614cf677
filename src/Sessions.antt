-- ===== src/Sessions.antt =====
-- internal/sessions/manager.go: the sessions by their id.
pub mod Laws
mod Tests
use auxitalk.Base.{
  String, List, [], ◌∷◌, ◌++◌, Option, none, some, Error, Result, ok, err, string_eq, concat,
  or_else,
}
use auxitalk.Base.Map.{lookup, put, delete, values}
use auxitalk.Types.Event.{Time}
use auxitalk.Types.Session.{Session, Message, validate_message}
use auxitalk.Types.Session

abbrev pub Manager : Type 0
Manager = List (String × Session)

-- NewManager
abbrev pub new_manager : Manager
new_manager = []

pub err_session_not_found : Error
err_session_not_found = "session not found"

abbrev invalid : String → Error → Error
invalid what e = concat ("invalid " ∷ what ∷ ": " ∷ e ∷ [])

pub create : Session → Manager → Manager × Option Error
create s m = elim (Session.validate s) [
  | some e ↦ (m, some (invalid "session" e))
  | none ↦ elim (lookup s.id m) [
    | some _ ↦ (m, some (concat ("session " ∷ s.id ∷ " already exists" ∷ [])))
    | none ↦ (put s.id s m, none)
  ]
]

pub get : String → Manager → Result Session
get id m = elim (lookup id m) [ none ↦ err err_session_not_found | some s ↦ ok s ]

pub update : Session → Manager → Manager × Option Error
update s m = elim (Session.validate s) [
  | some e ↦ (m, some (invalid "session" e))
  | none ↦ elim (lookup s.id m) [
    | none ↦ (m, some err_session_not_found)
    | some _ ↦ (put s.id s m, none)
  ]
]

pub remove : String → Manager → Manager
remove id m = delete id m

-- The order of the iteration is an argument.
pub list : (Manager → Manager) → Manager → List Session
unfolding values
list order m = values (order m)

-- `now` is the time that time.Now() reads.
pub append_message : Time → String → Message → Manager → Manager × Option Error
append_message now id message m = elim (validate_message message) [
  | some e ↦ (m, some (invalid "message" e))
  | none ↦ elim (lookup id m) [
    | none ↦ (m, some err_session_not_found)
    | some s ↦
        (put id (record s { messages = s.messages ++ message ∷ []; updated_at = now }) m, none)
  ]
]
