-- ===== src/Types/Suggestion.antt =====
-- pkg/types/suggestion.go. `F` stands for float64, with Go's tests c < 0 and c > 1.
use auxitalk.Base.{
  String, Bool, ◌||◌, ◌&&◌, Option, none, some, Error, ◌==◌, string_eq, if◌then◌else◌, is_blank,
  not,
}
use auxitalk.Types.Value.{Fields}
use auxitalk.Types.Event.{Time, is_zero}

abbrev pub respond : String
respond = "respond"

abbrev pub wait : String
wait = "wait"

abbrev pub ask_user : String
ask_user = "ask_user"

abbrev pub ignore : String
ignore = "ignore"

pub record Suggestion (F : Type 0) : Type 0 where
  pub id : String
  pub session_id : String
  pub text : String
  pub confidence : F
  pub reason : String
  pub tone : String
  pub action : String
  pub metadata : Fields
  pub created_at : Time

-- the cases of `switch s.Action`
unfoldable pub is_suggestion_action : String → Bool
is_suggestion_action a = a == respond || a == wait || a == ask_user || a == ignore

unfoldable pub validate :
    {F : Type 0} (below_zero above_one : F → Bool) → Suggestion F → Option Error
unfolding is_suggestion_action
validate below_zero above_one s =
    if is_blank s.id
    then some "suggestion id is required"
    else if is_blank s.session_id
    then some "suggestion sessionId is required"
    else if below_zero s.confidence || above_one s.confidence
    then some "suggestion confidence must be between 0 and 1"
    else if not (is_suggestion_action s.action)
    then some "suggestion action is invalid"
    else if s.action == respond && is_blank s.text
    then some "suggestion text is required for respond action"
    else if is_zero s.created_at
    then some "suggestion createdAt is required"
    else none
