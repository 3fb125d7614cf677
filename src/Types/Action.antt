-- ===== src/Types/Action.antt =====
-- pkg/types/action.go. Risks and statuses are Go strings with named constants.
use auxitalk.Base.{
  ℤ, String, Bool, ◌||◌, Option, none, some, Error, ◌==◌, string_eq, if◌then◌else◌, is_blank, not,
}
use auxitalk.Types.Value.{Fields}
use auxitalk.Types.Event.{Time, is_zero}

abbrev pub low : String
low = "low"

abbrev pub medium : String
medium = "medium"

abbrev pub high : String
high = "high"

abbrev pub requested : String
requested = "requested"

abbrev pub allowed : String
allowed = "allowed"

abbrev pub confirmed : String
confirmed = "confirmed"

abbrev pub denied : String
denied = "denied"

abbrev pub executed : String
executed = "executed"

abbrev pub failed : String
failed = "failed"

pub record ActionRequest : Type 0 where
  pub id : String
  pub type : String
  pub risk : String
  pub status : String
  pub source : String
  pub session_id : String
  pub trace_id : String
  pub depth : ℤ
  pub payload : Fields
  pub created_at : Time

-- the cases of `switch a.Risk`
unfoldable pub is_risk : String → Bool
is_risk r = r == low || r == medium || r == high

-- the cases of `switch a.Status`
unfoldable pub is_status : String → Bool
is_status s =
    s == requested || s == allowed || s == confirmed || s == denied || s == executed || s == failed

unfoldable pub validate : ActionRequest → Option Error
validate a =
    if is_blank a.id
    then some "action id is required"
    else if is_blank a.type
    then some "action type is required"
    else if is_blank a.source
    then some "action source is required"
    else if not (is_risk a.risk)
    then some "action risk is invalid"
    else if not (is_status a.status)
    then some "action status is invalid"
    else if is_zero a.created_at
    then some "action createdAt is required"
    else none
