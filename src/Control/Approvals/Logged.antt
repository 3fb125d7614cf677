-- ===== src/Control/Approvals/Logged.antt =====
-- The server approves the action that a request is read to approve, and no other.
use mathlib.Core.Path.{subst}
use mathlib.Core.List.{append-nil}
use auxitalk.Base.{
  String, Bool, true, false, List, [], ◌∷◌, ◌++◌, Option, none, some, Error, Result, ok, err, ◌≡◌,
  refl, sym, ap, ◌∙◌, inl, inr, ◌==◌, string_eq, eq_iff, if◌then◌else◌, if-elim, Bool-cases,
  Option-cases, Result-cases,
}
use auxitalk.Base.Text.{strip_prefix, has_prefix, trim_prefix}
use auxitalk.Types.Event.{Event}
use auxitalk.Types.Action.{ActionRequest}
use auxitalk.Types.Workflow.{Workflow}
use auxitalk.Control.Service.{RuntimeApi}
use auxitalk.Control.{
  Request, Answer, done, emitted, finish, finish_action, split_slash, operation, configure_plugin,
  events_route, reload_workflows, workflow_operation, workflow_mutation, action_operation,
  action_mutation, logs, log_stream, route_tree, route_read, route, serve, parse_log_limit,
}
use auxitalk.Control.Approvals.{approved_part, approved_at, approved_by}

module _ {S : Type 0} (service : RuntimeApi S) (Q : List String → S → Type 0) where
  -- Every operation keeps what holds of the approvals and the state, an approval with its id added.
  pub record IsLogged : Type 0 where
    pub approve :
        (id : String) (ids : List String) (s : S)
        → Q ids s
        → Q (ids ++ id ∷ []) (service.approve_action id s).0
    pub deny :
        (id : String) (ids : List String) (s : S) → Q ids s → Q ids (service.deny_action id s).0
    pub reload :
        (ws : List Workflow) (ids : List String) (s : S)
        → Q ids s
        → Q ids (service.reload_workflows ws s).0
    pub enable :
        (id : String) (ids : List String) (s : S) → Q ids s → Q ids (service.enable_workflow id s).0
    pub disable :
        (id : String) (ids : List String) (s : S)
        → Q ids s
        → Q ids (service.disable_workflow id s).0
    pub emit : (e : Event) (ids : List String) (s : S) → Q ids s → Q ids (service.emit_event e s).0
    pub configure :
        (id : String) (on : Bool) (env : List (String × String)) (ids : List String) (s : S)
        → Q ids s
        → Q ids (service.configure_plugin id on env s).0

  module _ (c : IsLogged) (r : Request) (ids : List String) (s : S) (q : Q ids s) where
    -- the answer's state, with the approval that the request is read to make
    data Logged : S × Answer → Type 0 where
      logged : {x : S × Answer} → Q (ids ++ approved_by r) x.0 → Logged x

    state_of : {x : S × Answer} → Logged x → Q (ids ++ approved_by r) x.0
    state_of (logged h) = h

    unapproved : (t : S) → approved_by r ≡ [] → Q ids t → Q (ids ++ approved_by r) t
    unapproved t e h = rw e (subst (λ l. Q l t) (sym (append-nil ids)) h)

    at_other : (p : String) → approved_at p ≡ [] → (r.path == p) ≡ true → approved_by r ≡ []
    unfolding approved_by
    at_other p e h =
        if-elim (λ l. l ≡ []) (r.method == "POST") (λ _. ap approved_at ((eq_iff r.path p).0 h) ∙ e)
          (λ _. refl)

    finish-state : (a : Answer) (x : S × Option Error) → (finish service a x).0 ≡ x.0
    finish-state a (t, none) = refl
    finish-state a (t, some e) = refl

    finish_action-state : (x : S × Result ActionRequest) → (finish_action service x).0 ≡ x.0
    finish_action-state (t, ok a) = refl
    finish_action-state (t, err e) = refl

    -- an operation without an approval, behind `finish`
    finished :
        (a : Answer) (x : S × Option Error)
        → approved_by r ≡ []
        → Q ids x.0
        → Logged (finish service a x)
    finished a x e h = logged (unapproved _ e (subst (Q ids) (sym (finish-state a x)) h))

    unchanged : (a : Answer) → approved_by r ≡ [] → Logged (s, a)
    unchanged a e = logged (unapproved s e q)

    -- a branch for one path, which is not that of an approval
    at_path :
        (p : String) {x y : S × Answer}
        → approved_at p ≡ []
        → (approved_by r ≡ [] → Logged x)
        → Logged y
        → Logged (if r.path == p then x else y)
    at_path p e hx hy =
        if-elim {A = S × Answer} Logged (r.path == p) (λ h. hx (at_other p e h)) (λ _. hy)

    -- a branch for a POST and one for another method, which changes nothing
    posted :
        {x : S × Answer} (a : Answer)
        → ((r.method == "POST") ≡ true → Logged x)
        → Logged (if r.method == "POST" then x else (s, a))
    unfolding approved_by
    posted a hx =
        if-elim {A = S × Answer} Logged (r.method == "POST") hx
          (λ n. let e : approved_by r ≡ [] = rw (n, approved_by) refl in unchanged a e)

    configure_plugin-logged : approved_by r ≡ [] → Logged (configure_plugin service r s)
    unfolding configure_plugin
    configure_plugin-logged e = posted _ (λ _. elim (Result-cases r.plugin_body) [
      | inl (x, m) ↦ simp m (unchanged _ e)
      | inr (x, m) ↦ simp m (finished done _ e (c.configure x.id x.enabled x.env ids s q))
    ])

    events_route-logged : approved_by r ≡ [] → Logged (events_route service r s)
    unfolding events_route
    events_route-logged e =
        if-elim {A = S × Answer} Logged (r.method == "POST")
          (λ _. elim (Result-cases r.event_body) [
            | inl (x, m) ↦ simp m (unchanged _ e)
            | inr (x, m) ↦ simp m (finished (emitted x.id) _ e (c.emit x ids s q))
          ])
          (λ _. unchanged _ e)

    reload_workflows-logged : approved_by r ≡ [] → Logged (reload_workflows service r s)
    unfolding reload_workflows
    reload_workflows-logged e = posted _ (λ _. elim (Result-cases r.workflows_body) [
      | inl (x, m) ↦ simp m (unchanged _ e)
      | inr (x, m) ↦ simp m (finished done _ e (c.reload x ids s q))
    ])

    workflow_operation-logged :
        (o : Option (String × String))
        → approved_by r ≡ []
        → Logged (workflow_operation service o s)
    unfolding workflow_operation
    workflow_operation-logged none e = unchanged _ e
    workflow_operation-logged (some (id, op)) e =
        if-elim {A = S × Answer} Logged (op == "enable")
          (λ _. finished done _ e (c.enable id ids s q))
          (λ _.
            if-elim {A = S × Answer} Logged (op == "disable")
              (λ _. finished done _ e (c.disable id ids s q)) (λ _. unchanged _ e))

    workflow_mutation-logged : approved_by r ≡ [] → Logged (workflow_mutation service r s)
    unfolding workflow_mutation
    workflow_mutation-logged e =
        posted _ (λ _. workflow_operation-logged (operation "/api/workflows/" r) e)

    action_operation-logged :
        (o : Option (String × String)) → Q (ids ++ approved_part o) (action_operation service o s).0
    unfolding action_operation approved_part
    action_operation-logged none = subst (λ l. Q l s) (sym (append-nil ids)) q
    action_operation-logged (some (id, op)) = elim (Bool-cases (op == "approve")) [
      | inl y ↦
          rw (y, action_operation, approved_part)
            (subst (Q (ids ++ id ∷ [])) (sym (finish_action-state _)) (c.approve id ids s q))
      | inr n ↦
          rw (n, action_operation, approved_part, append-nil ids)
            (if-elim {A = S × Answer} (λ x. Q ids x.0) (op == "deny")
              (λ _. subst (Q ids) (sym (finish_action-state _)) (c.deny id ids s q)) (λ _. q))
    ]

    action_mutation-logged :
        has_prefix r.path "/api/actions/" ≡ true → Logged (action_mutation service r s)
    unfolding action_mutation operation approved_by approved_at
    action_mutation-logged h = posted _ (λ m.
        logged (rw (m, approved_by, h) (action_operation-logged (operation "/api/actions/" r))))

    route_tree-logged : Logged (route_tree service r s)
    unfolding route_tree approved_by approved_at
    route_tree-logged = elim (Bool-cases (has_prefix r.path "/api/actions/")) [
      | inl y ↦ rw (y, route_tree) (action_mutation-logged y)
      | inr n ↦
          (let e : approved_by r ≡ [] =
              if-elim (λ l. l ≡ []) (r.method == "POST") (λ _. rw (n, approved_at) refl)
                (λ _. refl) in
            rw (n, route_tree)
              (if-elim {A = S × Answer} Logged (has_prefix r.path "/api/workflows/")
                (λ _. workflow_mutation-logged e) (λ _. unchanged _ e)))
    ]

    at_logs : approved_by r ≡ [] → Logged (logs service r s)
    unfolding logs
    at_logs e = elim (Option-cases (parse_log_limit r)) [
      | inl m ↦ simp (logs, m) (unchanged _ e)
      | inr (n, m) ↦ elim (Result-cases (service.logs n s)) [
        | inl (x, l) ↦ simp (logs, m, l) (unchanged _ e)
        | inr (t, l) ↦ simp (logs, m, l) (unchanged _ e)
      ]
    ]

    at_stream : approved_by r ≡ [] → Logged (log_stream service r s)
    unfolding log_stream
    at_stream e = elim (Option-cases (parse_log_limit r)) [
      | inl m ↦ simp (log_stream, m) (unchanged _ e)
      | inr (n, m) ↦ simp (log_stream, m) (unchanged _ e)
    ]

    route_read-logged : Logged (route_read service r s)
    unfolding route_read approved_at split_slash has_prefix strip_prefix trim_prefix
    route_read-logged = at_path "/health" refl (unchanged _) (
        at_path "/api/status" refl (unchanged _) (
          at_path "/api/plugins" refl (unchanged _) (
            at_path "/api/events/stream" refl (unchanged _) (
              at_path "/api/actions" refl (unchanged _) (
                at_path "/api/actions/stream" refl (unchanged _) (
                  at_path "/api/workflows" refl (unchanged _) (
                    at_path "/api/logs" refl at_logs
                      (at_path "/api/logs/stream" refl at_stream route_tree-logged))))))))

    route-logged : Logged (route service r s)
    unfolding route approved_at has_prefix strip_prefix
    route-logged = at_path "/api/plugins/configure" refl configure_plugin-logged (
        at_path "/api/events" refl events_route-logged
          (at_path "/api/workflows/reload" refl reload_workflows-logged route_read-logged))

    -- The server approves what the request is read to approve, and no other action.
    pub serve-logged : Q (ids ++ approved_by r) (serve service r s).0
    unfolding serve approved_by
    serve-logged = state_of (
        if-elim {A = S × Answer} Logged (r.method == "OPTIONS")
          (λ h. unchanged _ (
            let e : (r.method == "POST") ≡ false =
              ap (λ m. m == "POST") ((eq_iff r.method "OPTIONS").0 h) in
            rw (e, approved_by) refl))
          (λ _. route-logged))
