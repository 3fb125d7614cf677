-- ===== src/Runtime/Mutations/Kept.antt =====
-- What the requests of users and plugins keep, beside what an approval starts.
use auxitalk.Base.{
  ℕ, String, Option, none, some, Error, Result, ok, err, ◌≡◌, refl, inl, inr, ◌==◌, string_eq,
  eq_iff, suc, if-elim, Bool-cases, Option-cases, [], ◌∷◌, concat,
}
use auxitalk.Types.Event.{Event, Time}
use auxitalk.Types.Action.{ActionRequest, allowed, denied}
use auxitalk.Types.Execution.{ActionExecution}
use auxitalk.Actions.Gate.{decide}
use auxitalk.Actions.Store.{Store, save}
use auxitalk.Runtime.Deps.{Runtime, now, persist_action}
use auxitalk.Runtime.Deps.Frame.{persist_action-SameCore, fill_defaults-SameCore}
use auxitalk.Runtime.Publish.{Publisher}
use auxitalk.Runtime.Publish.Closed.{
  IsPermitted, IsClosed, SameCore-keeps, decide-IsPermitted_at, status-keeps,
}
use auxitalk.Runtime.Mutations.{
  final_status, deny_updated, deny_action, requested_event, accept_plugin_action,
  gate_plugin_action, handle_action_request, settle, settle_updated, complete_action,
}

module _ (time_at : ℕ → Time) (mode : String) (P : Runtime → Type 0) (c : IsClosed mode P)
    (publish : Publisher) (keeps : (e : Event) (r : Runtime) → P r → P (publish e r).0) where
  -- the action of a changed table, written to the database
  pub persist-keeps : (a : ActionRequest) (r : Runtime) → P r → P (persist_action a r)
  persist-keeps a r p = SameCore-keeps time_at mode P c _ _ (persist_action-SameCore a r) p

  deny_updated-keeps :
      (x : Store × Result ActionRequest) (r : Runtime)
      → P r
      → P (record r { actions = x.0 })
      → P (deny_updated time_at publish x r).0
  unfolding deny_updated
  deny_updated-keeps (s, err e) r p q = p
  deny_updated-keeps (s, ok a) r p q =
      status-keeps time_at mode P c publish keeps "action.denied" a _ (persist-keeps a _ q)

  pub deny-keeps : (id : String) (r : Runtime) → P r → P (deny_action time_at publish id r).0
  unfolding deny_action
  deny-keeps id r p = deny_updated-keeps _ r p (c.changed id denied r p)

  settle_updated-keeps :
      (x : Store × Result ActionRequest) (r : Runtime)
      → P r
      → P (record r { actions = x.0 })
      → P (settle_updated x r)
  unfolding settle_updated
  settle_updated-keeps (s, err e) r p q = p
  settle_updated-keeps (s, ok a) r p q = persist-keeps a _ q

  pub complete-keeps :
      (a : ActionRequest) (x : ActionExecution) (failure : Option Error) (r : Runtime)
      → P r
      → P (complete_action time_at publish a x failure r)
  unfolding complete_action settle now
  complete-keeps a x failure r p =
      let settled = settle_updated-keeps _ r p (c.changed a.id (final_status failure) r p) in
      keeps _ _ (c.framed (settle a.id (final_status failure) r) _ refl refl refl refl refl settled)

  published-keeps :
      (a : ActionRequest) (r : Runtime)
      → P r
      → P
          (publish
            (requested_event a (time_at r.reads) (time_at (suc r.reads)))
            (record r { actions = save a r.actions; reads = suc (suc r.reads) })).0
  published-keeps a r p = keeps _ _ (
      c.framed (record r { actions = save a r.actions }) _ refl refl refl refl refl (c.saved a r p))

  accept-keeps :
      (a : ActionRequest) (r : Runtime)
      → (a.status ≡ allowed → IsPermitted mode a)
      → P r
      → P (accept_plugin_action time_at publish a r)
  unfolding accept_plugin_action now
  accept-keeps a r h p =
      if-elim P (a.status == allowed)
        (λ y. c.started a _ (h ((eq_iff a.status allowed).0 y)) (published-keeps a r p))
        (λ n. published-keeps a r p)

  gate-keeps :
      (a : ActionRequest) (r : Runtime) → P r → P (gate_plugin_action time_at publish a r).0
  unfolding gate_plugin_action
  gate-keeps a r p = elim (Option-cases (decide r.mode a).1) [
    | inl n ↦ rw (n, gate_plugin_action) accepted
    | inr (x, e) ↦ elim (Bool-cases ((decide r.mode a).0 == "")) [
      | inl refused ↦ rw (e, gate_plugin_action, refused) p
      | inr kept ↦ rw (e, gate_plugin_action, kept) accepted
    ]
  ]
    where
      accepted :
          P (accept_plugin_action time_at publish (record a { status = (decide r.mode a).0 }) r)
      accepted = accept-keeps _ r ((decide-IsPermitted_at mode r.mode a (c.mode_same r p))) p

  pub request-keeps :
      (plugin : String) (decoded : Option ActionRequest) (r : Runtime)
      → P r
      → P (handle_action_request time_at publish plugin decoded r).0
  unfolding handle_action_request
  request-keeps plugin none r p = p
  request-keeps plugin (some a) r p = gate-keeps _ _ (
      SameCore-keeps time_at mode P c _ _
        (fill_defaults-SameCore time_at plugin (concat (plugin ∷ "-action-" ∷ [])) a r) p)
