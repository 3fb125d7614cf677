-- ===== src/Runtime/Mutations/Effects.antt =====
-- What approving, denying and requesting do to the store, the database and the actions under way,
-- where no workflow reacts to the published event.
use mathlib.Core.Path.{subst}
use auxitalk.Base.{
  ℕ, suc, String, List, sym, [], ◌∷◌, ◌++◌, Option, none, some, ok, ◌≡◌, refl, ap, ◌∙◌, arith, ◌==◌,
  string_eq, eq_iff, inl, inr, Bool-cases,
}
use auxitalk.Base.Map.{lookup, put, lookup-put}
use auxitalk.Types.Event.{Time}
use auxitalk.Types.Action.{ActionRequest, allowed, denied}
use auxitalk.Types.Action
use auxitalk.Actions.Store.{Store, save, update_status}
use auxitalk.Storage.{Storage, save_action, action_row}
use auxitalk.Runtime.Deps.{Runtime, Handler, now, persist_action, execute_async}
use auxitalk.Runtime.Publish.{Publisher, publish_action_status, accept_action, publish_at}
use auxitalk.Runtime.Publish.Still.{IsUnheard, Still, rows_of, publish_at-Still, status-Still}
use auxitalk.Runtime.Mutations.{
  approve_action, approve_updated, deny_action, deny_updated, accept_plugin_action, requested_event,
}

abbrev pub with_status : ActionRequest → String → ActionRequest
with_status a status = record a { status = status }

-- the row of an action, if the database is open
abbrev pub row_in : Option (List (String × ActionRequest)) → String → Option ActionRequest
row_in none id = none
row_in (some rows) id = lookup id rows

abbrev pub row_of : Option Storage → String → Option ActionRequest
row_of st id = row_in (rows_of st) id

pub persist-keeps :
    (a : ActionRequest) (r : Runtime)
    → ((persist_action a r).actions ≡ r.actions)
      × ((persist_action a r).running ≡ r.running)
      × ((persist_action a r).engine.rules ≡ r.engine.rules)
unfolding persist_action
persist-keeps a r = ground arith

module _ (time_at : ℕ → Time) (order wild_order : List (ℕ × Handler) → List (ℕ × Handler))
    (nesting : ℕ) where
  -- the runtime's own publisher
  abbrev pub publish : Publisher
  publish = publish_at time_at order wild_order nesting

  -- An event on the status of an action to which no rule reacts, after the action was written.
  pub status-written :
      (t : String) (a : ActionRequest) (r : Runtime)
      → IsUnheard t r.engine.rules
      → Still (persist_action a r) (publish_action_status time_at publish t a (persist_action a r))
  status-written t a r h =
      status-Still time_at order wild_order nesting t a (persist_action a r)
        (subst (IsUnheard t) (sym (persist-keeps a r).2) h)

  module _ (id : String) (a : ActionRequest) (r : Runtime)
      (found : lookup id r.actions ≡ some a) where
    pub updated :
        (status : String)
        → update_status id status r.actions
          ≡ (put id (with_status a status) r.actions, ok (with_status a status))
    unfolding update_status
    updated status = rw (found, update_status)

    pub stored :
        (status : String)
        → lookup id (put id (with_status a status) r.actions) ≡ some (with_status a status)
    stored status = lookup-put id id (with_status a status) r.actions ∙ rw ((eq_iff id id).1 refl)

    -- the state in which the event on the new status is published
    abbrev pub written : String → Runtime
    written status =
        persist_action (with_status a status)
          (record r { actions = put id (with_status a status) r.actions })

    approved : approve_action time_at publish id r ≡ (
      execute_async (with_status a allowed) (
          publish_action_status time_at publish "action.approved"
            (with_status a allowed)
            (written allowed)),
      ok (with_status a allowed),
    )
    unfolding approve_action approve_updated
    approved = ap (λ x. approve_updated time_at publish x r) (updated allowed)

    was_denied : deny_action time_at publish id r ≡ (
      publish_action_status time_at publish "action.denied" (with_status a denied) (written denied),
      ok (with_status a denied),
    )
    unfolding deny_action deny_updated
    was_denied = ap (λ x. deny_updated time_at publish x r) (updated denied)

    written-published :
        (t status : String)
        → IsUnheard t r.engine.rules
        → ((publish_action_status time_at publish t (with_status a status) (written status)).actions
            ≡ put id (with_status a status) r.actions)
          × ((publish_action_status time_at publish t
                (with_status a status)
                (written status)).running
              ≡ r.running)
    written-published t status h =
        let b = with_status a status in
        let s : Store = put id b r.actions in
        let k = persist-keeps b (record r { actions = s }) in
        let p = status-written t b (record r { actions = s }) h in
        (p.actions ∙ k.0, p.running ∙ k.1)

    -- Approving a stored action gives it the status allowed and starts it, whatever its status was:
    -- an action that was denied, or that has run, is started too. This is if no rule of the engine
    -- has the trigger action.approved or *, so that no workflow reacts to the approval.
    pub approve_any :
        IsUnheard "action.approved" r.engine.rules
        → ((approve_action time_at publish id r).1 ≡ ok (with_status a allowed))
          × (lookup id (approve_action time_at publish id r).0.actions
              ≡ some (with_status a allowed))
          × ((approve_action time_at publish id r).0.running
              ≡ r.running ++ with_status a allowed ∷ [])
    unfolding execute_async
    approve_any h =
        let (p, q) = written-published "action.approved" allowed h in
        (
          ap (λ x. x.1) approved,
          ap (λ x. lookup id x.0.actions) approved ∙ ap (lookup id) p ∙ stored allowed,
          ap (λ x. x.0.running) approved ∙ ap (λ l. l ++ with_status a allowed ∷ []) q,
        )

    -- Denying a stored action gives it the status denied and starts nothing, whatever its status
    -- was. This is if no rule of the engine has the trigger action.denied or *.
    pub deny_effect :
        IsUnheard "action.denied" r.engine.rules
        → ((deny_action time_at publish id r).1 ≡ ok (with_status a denied))
          × (lookup id (deny_action time_at publish id r).0.actions ≡ some (with_status a denied))
          × ((deny_action time_at publish id r).0.running ≡ r.running)
    deny_effect h =
        let (p, q) = written-published "action.denied" denied h in
        (
          ap (λ x. x.1) was_denied,
          ap (λ x. lookup id x.0.actions) was_denied ∙ ap (lookup id) p ∙ stored denied,
          ap (λ x. x.0.running) was_denied ∙ q,
        )

  accept-rows :
      (a : ActionRequest) (r : Runtime)
      → IsUnheard "action.requested" r.engine.rules
      → rows_of (accept_action time_at publish a r).storage
        ≡ rows_of (persist_action a (record r { actions = save a r.actions })).storage
  unfolding accept_action execute_async
  accept-rows a r h =
      let p = status-written "action.requested" a (record r { actions = save a r.actions }) h in
      elim (Bool-cases (a.status == allowed)) [ inl y ↦ rw y p.rows | inr n ↦ rw n p.rows ]

  accept_plugin-rows :
      (a : ActionRequest) (r : Runtime)
      → IsUnheard "action.requested" r.engine.rules
      → rows_of (accept_plugin_action time_at publish a r).storage ≡ rows_of r.storage
  unfolding accept_plugin_action requested_event execute_async now
  accept_plugin-rows a r h =
      let p =
        publish_at-Still time_at order wild_order nesting
          (requested_event a (time_at r.reads) (time_at (suc r.reads)))
          (record r { actions = save a r.actions; reads = suc (suc r.reads) }) h in
      elim (Bool-cases (a.status == allowed)) [ inl y ↦ rw y p.rows | inr n ↦ rw n p.rows ]

  -- With an open database that takes writes, an accepted action of a workflow is in the table of
  -- actions, but one of a plugin leaves the table as it was, whether or not the action is in it.
  -- This is if no rule of the engine has the trigger action.requested or *.
  pub accepted_rows :
      (a : ActionRequest) (r : Runtime) (st : Storage)
      → r.storage ≡ some st
      → st.fault ≡ none
      → Action.validate a ≡ none
      → IsUnheard "action.requested" r.engine.rules
      → (row_of (accept_action time_at publish a r).storage a.id ≡ some (action_row a))
        × (rows_of (accept_plugin_action time_at publish a r).storage ≡ some st.actions)
  unfolding persist_action save_action
  accepted_rows a r st open_db works valid h = (
    ap (λ s. row_in s a.id) (accept-rows a r h)
        ∙ rw (open_db, persist_action, valid, save_action, works)
            (lookup-put a.id a.id (action_row a) st.actions ∙ rw ((eq_iff a.id a.id).1 refl)),
    accept_plugin-rows a r h ∙ ap rows_of open_db,
  )
