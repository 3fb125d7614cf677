-- ===== src/Control/ReadOnly.antt =====
-- Only a POST changes the runtime.
use auxitalk.Base.{
  String, Bool, true, false, ◌≡◌, ◌≢◌, refl, ◌==◌, string_eq, eq_iff, arith, if◌then◌else◌,
  has_prefix, Option-cases, Result-cases, inl, inr,
}
use auxitalk.Control.Service.{RuntimeApi}
use auxitalk.Control.{
  Request, Answer, configure_plugin, events_route, reload_workflows, workflow_mutation,
  action_mutation, logs, log_stream, route_tree, route_read, route, serve, parse_log_limit,
}

module _ {S : Type 0} (service : RuntimeApi S) (r : Request) (s : S) where
  data Keeps : S × Answer → Type 0 where
    keeps : (a : Answer) → Keeps (s, a)

  branches : (b : Bool) {x y : S × Answer} → Keeps x → Keeps y → Keeps (if b then x else y)
  branches true hx hy = hx
  branches false hx hy = hy

  at_path :
      (p : String) {x y : S × Answer} → Keeps x → Keeps y → Keeps (if r.path == p then x else y)
  at_path p hx hy = branches (r.path == p) hx hy

  kept : {x : S × Answer} → Keeps x → x.0 ≡ s
  kept (keeps a) = refl

  logs-Keeps : Keeps (logs service r s)
  unfolding logs
  logs-Keeps = elim (Option-cases (parse_log_limit r)) [
    | inl p ↦ rw (logs, p) (keeps _)
    | inr (n, p) ↦ elim (Result-cases (service.logs n s)) [
      | inl (e, q) ↦ rw (logs, p, q) (keeps _)
      | inr (t, q) ↦ rw (logs, p, q) (keeps _)
    ]
  ]

  log_stream-Keeps : Keeps (log_stream service r s)
  unfolding log_stream
  log_stream-Keeps = elim (Option-cases (parse_log_limit r)) [
    | inl p ↦ rw (log_stream, p) (keeps _)
    | inr (n, p) ↦ rw (log_stream, p) (keeps _)
  ]

  module _ (other : r.method ≢ "POST") where
    refused :
        (x : S × Answer) {y : S × Answer} → Keeps y → Keeps (if r.method == "POST" then x else y)
    refused x h =
        let e : (r.method == "POST") ≡ false = ground (arith, eq_iff r.method "POST") in rw e h

    workflow_mutation-Keeps : Keeps (workflow_mutation service r s)
    unfolding workflow_mutation
    workflow_mutation-Keeps = refused _ (keeps _)

    action_mutation-Keeps : Keeps (action_mutation service r s)
    unfolding action_mutation
    action_mutation-Keeps = refused _ (keeps _)

    route_tree-Keeps : Keeps (route_tree service r s)
    unfolding route_tree
    route_tree-Keeps =
        branches (has_prefix r.path "/api/actions/") action_mutation-Keeps
          (branches (has_prefix r.path "/api/workflows/") workflow_mutation-Keeps (keeps _))

    route_read-Keeps : Keeps (route_read service r s)
    unfolding route_read
    route_read-Keeps = at_path "/health" (keeps _) (
        at_path "/api/status" (keeps _) (
          at_path "/api/plugins" (keeps _) (
            at_path "/api/events/stream" (keeps _) (
              at_path "/api/actions" (keeps _) (
                at_path "/api/actions/stream" (keeps _) (
                  at_path "/api/workflows" (keeps _) (
                    at_path "/api/logs" logs-Keeps
                      (at_path "/api/logs/stream" log_stream-Keeps route_tree-Keeps))))))))

    route-Keeps : Keeps (route service r s)
    unfolding route configure_plugin events_route reload_workflows
    route-Keeps = at_path "/api/plugins/configure" (refused _ (keeps _)) (
        at_path "/api/events" (refused _ (keeps _))
          (at_path "/api/workflows/reload" (refused _ (keeps _)) route_read-Keeps))

    -- A request with another method than POST leaves the runtime as it was, whatever its path and its
    -- body are.
    pub serve-read_only : (serve service r s).0 ≡ s
    unfolding serve
    serve-read_only = kept (branches (r.method == "OPTIONS") (keeps _) route-Keeps)
