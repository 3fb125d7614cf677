-- ===== src/Actions/Gate.antt =====
-- internal/actions/gate.go. A decision is the pair of a status and an error that Go returns.
pub mod Policy
use auxitalk.Base.{
  String, ◌||◌, Option, none, some, Error, [], ◌∷◌, ◌==◌, string_eq, if◌then◌else◌, concat,
}
use auxitalk.Types.Action.{ActionRequest, low, medium, high, allowed, confirmed, denied}
use auxitalk.Types.Action

-- the constants of type Mode in internal/config/config.go
abbrev pub mode_dev : String
mode_dev = "dev"

abbrev pub mode_local : String
mode_local = "local"

abbrev pub mode_strict : String
mode_strict = "strict"

pub err_action_denied : Error
err_action_denied = "action denied by gate"

-- The gate is its mode.
unfoldable pub decide_dev : ActionRequest → String × Option Error
decide_dev a = (allowed, none)

unfoldable pub decide_local : ActionRequest → String × Option Error
decide_local a =
    if a.risk == low
    then (allowed, none)
    else if a.risk == medium
    then (confirmed, none)
    else if a.risk == high
    then (denied, some err_action_denied)
    else (denied, some err_action_denied)

unfoldable pub decide_strict : ActionRequest → String × Option Error
decide_strict a =
    if a.risk == low
    then (confirmed, none)
    else if a.risk == medium || a.risk == high
    then (denied, some err_action_denied)
    else (denied, some err_action_denied)

unfoldable pub decide_mode : String → ActionRequest → String × Option Error
unfolding decide_dev decide_local decide_strict
decide_mode mode a =
    if mode == mode_dev
    then decide_dev a
    else if mode == mode_local
    then decide_local a
    else if mode == mode_strict
    then decide_strict a
    else ("", some (concat ("unknown runtime mode: " ∷ mode ∷ [])))

unfoldable pub decide : String → ActionRequest → String × Option Error
decide mode a = elim (Action.validate a) [
  | some e ↦ ("", some (concat ("invalid action: " ∷ e ∷ [])))
  | none ↦ decide_mode mode a
]
