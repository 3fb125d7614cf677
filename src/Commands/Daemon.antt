-- ===== src/Commands/Daemon.antt =====
-- cmd/auxitalkd/main.go, up to the wait for a signal.
use auxitalk.Base.{
  ℕ, ℤ, [], ◌∷◌, Option, none, some, Error, Result, ok, err, ◌==◌, string_eq, if◌then◌else◌, concat,
}
use auxitalk.Types.Value.{Value}
use auxitalk.Types.Event.{Time}
use auxitalk.Config.{Config}
use auxitalk.Workflows.Registry.{Registry}
use auxitalk.Runtime.Publish.{Publisher}
use auxitalk.Runtime.System.{Daemon}
use auxitalk.Runtime.System.Boot.{Begins, boot}
use auxitalk.Commands.Logger.{Logger, init}

-- The process has ended with status 1 and a text on the standard error, has ended with status 0, or
-- waits.
pub data Process : Type 0 where
  exited : Error → Process
  ended : Process
  waiting : Logger → Daemon → Process

-- The program, `none` if New panics: `loaded` is what Load answers, `made` and `opened` what Init meets.
unfoldable pub main :
    (number : ℤ → Value)
    → (ℕ → Time)
    → Publisher
    → (Registry → Registry)
    → Begins
    → (loaded : Result Config) → (made : Option Error) → (opened : Result ℕ) → Logger
    → Option Process
unfolding init boot
main number time_at publish rules_order b loaded made opened l = elim loaded [
  | err e ↦ some (exited (concat ("auxitalkd: " ∷ e ∷ [])))
  | ok c ↦
      (let (l', failed) = init c.runtime.log_path made opened l in
        elim failed [
          | some e ↦ some (exited (concat ("auxitalkd logger: " ∷ e ∷ [])))
          | none ↦ elim (boot number time_at publish rules_order b c) [
            | none ↦ none
            | some (err e) ↦ some (
                if e == "context canceled" then ended else exited (concat ("auxitalkd: " ∷ e ∷ [])))
            | some (ok d) ↦ some (waiting l' d)
          ]
        ])
]
