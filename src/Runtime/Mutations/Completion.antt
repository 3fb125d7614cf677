-- ===== src/Runtime/Mutations/Completion.antt =====
-- How an action ends that executeActionAsync has started.
use auxitalk.Base.{ℕ, List, string_eq}
use auxitalk.Types.Event.{Time}
use auxitalk.Runtime.Deps.{Runtime, Handler}
use auxitalk.Runtime.Publish.{Publisher}
use auxitalk.Runtime.Mutations.Effects.{publish}

module _ (time_at : ℕ → Time) (order wild_order : List (ℕ × Handler) → List (ℕ × Handler))
    (nesting : ℕ) where
  abbrev own : Publisher
  own = publish time_at order wild_order nesting
