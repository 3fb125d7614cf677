-- ===== src/Types/Event.antt =====
-- pkg/types/event.go
use auxitalk.Base.{
  ℕ, ℤ, String, Bool, Option, none, some, Error, ◌==◌, nat_eq, if◌then◌else◌, is_blank,
}
use auxitalk.Types.Value.{Fields}

-- A `time.Time`, by the nanoseconds since the zero time.
abbrev pub Time : Type 0
Time = ℕ

-- t.IsZero()
abbrev pub is_zero : Time → Bool
is_zero t = t == 0

pub record Event : Type 0 where
  pub id : String
  pub type : String
  pub source : String
  pub session_id : String
  pub trace_id : String
  pub depth : ℤ
  pub payload : Fields
  pub created_at : Time

unfoldable pub validate : Event → Option Error
validate e =
    if is_blank e.id
    then some "event id is required"
    else if is_blank e.type
    then some "event type is required"
    else if is_blank e.source
    then some "event source is required"
    else if is_zero e.created_at
    then some "event createdAt is required"
    else none
