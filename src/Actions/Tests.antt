-- ===== src/Actions/Tests.antt =====
-- Runs of the gate and of the store on sample actions.
use mathlib.Core.List.Perm
use mathlib.Core.List.{Mem}
use auxitalk.Base.{
  ◌≤◌, true, [], ◌∷◌, none, some, ◌≡◌, ◌≢◌, ◌↔◌, ◌⊎◌, refl, arith, ◌==◌, ◌||◌, string_eq,
  if◌then◌else◌, err, ok, eq_iff,
}
use auxitalk.Base.Map.{lookup, put}
use auxitalk.Types.Samples.{reply}
use auxitalk.Types.Action.{ActionRequest, low, medium, high, requested, allowed, confirmed}
use auxitalk.Types.Action
use auxitalk.Actions.Gate.{
  decide, decide_dev, decide_local, decide_strict, decide_mode, mode_dev, mode_local, mode_strict,
  err_action_denied,
}
use auxitalk.Actions.Gate.Policy.{decide-allowed_iff, decide-refused_iff, freedom, freedom-decide}
use auxitalk.Actions.Store.{
  Store, new, save, get, update_status, list, pending, is_pending, err_action_not_found,
}
use auxitalk.Actions.Store.Laws.{
  IsStore, store-IsStore, with_status, get-update_status, mem-pending,
}

abbrev risky : ActionRequest
risky = record reply { risk = medium }

decide-allowed_iff_example : ((decide mode_local reply).0 ≡ allowed) ↔ (
    (Action.validate reply ≡ none)
    × ((mode_local ≡ mode_dev) ⊎ ((mode_local ≡ mode_local) × (reply.risk ≡ low))))
decide-allowed_iff_example = decide-allowed_iff mode_local reply

decide-refused_iff_example : ((decide "open" reply).0 ≡ "") ↔ (
    (Action.validate reply ≢ none)
    ⊎ (("open" ≢ mode_dev) × ("open" ≢ mode_local) × ("open" ≢ mode_strict)))
decide-refused_iff_example = decide-refused_iff "open" reply

freedom-decide_example :
    (freedom (decide mode_strict risky).0 ≤ freedom (decide mode_local risky).0)
    × (freedom (decide mode_local risky).0 ≤ freedom (decide mode_dev risky).0)
freedom-decide_example = freedom-decide risky

decide_high :
    decide_mode mode_local (record reply { risk = high }) ≡ ("denied", some err_action_denied)
unfolding decide_mode decide_dev decide_local decide_strict
decide_high = refl

abbrev one : Store
one = ("a1", reply) ∷ []

one-IsStore : IsStore one
unfolding lookup
one-IsStore = record { is_map = (refl, tt); keyed = λ k a p. ground (arith, eq_iff "a1" k) }

store-IsStore_example :
    IsStore (save (record reply { id = "a2" }) one) × IsStore (update_status "a1" allowed one).0
store-IsStore_example = store-IsStore (record reply { id = "a2" }) "a1" allowed one one-IsStore

get-update_status_example :
    (get "a1" (update_status "a1" allowed one).0
      ≡ (if reply.id == reply.id then with_status allowed (get "a1" one) else get "a1" one))
    × ((update_status "a1" allowed one).1 ≡ elim (with_status allowed (get "a1" one)) [
      | none ↦ err err_action_not_found
      | some a ↦ ok a
    ])
get-update_status_example = get-update_status "a1" "a1" allowed one

mem-pending_example : Mem reply (pending (λ m. m) one) ↔ (
    (get reply.id one ≡ some reply)
    × (reply.status == requested || reply.status == confirmed ≡ true))
mem-pending_example = mem-pending (λ m. m) reply one (λ m. Perm.refl m) one-IsStore

pending-save : pending (λ m. m) (save reply new) ≡ list (λ m. m) one
unfolding pending save list is_pending put
pending-save = refl
