-- ===== src/Control/Tests.antt =====
-- Requests to the API, over a counter in place of the runtime.
use auxitalk.Base.{ℕ, suc, String, false, none, ok, err, ◌≡◌, ◌≢◌, eq_iff, true, refl}
use auxitalk.Base.Text.{trim_prefix, has_prefix, strip_prefix}
use auxitalk.Types.Samples.{reply}
use auxitalk.Control.Service.{RuntimeApi}
use auxitalk.Control.{
  Request, serve, action, route, route_read, route_tree, action_mutation, action_operation,
  operation, split_slash, two_parts,
}
use auxitalk.Control.ReadOnly.{serve-read_only}

-- counts the operations that change it
abbrev counter : RuntimeApi ℕ
counter = record {
  approve_action = λ id n. (suc n, ok reply);
  deny_action = λ id n. (suc n, ok reply);
  reload_workflows = λ ws n. (suc n, none);
  enable_workflow = λ id n. (suc n, none);
  disable_workflow = λ id n. (suc n, none);
  emit_event = λ e n. (suc n, none);
  configure_plugin = λ id on env n. (suc n, none);
  logs = λ limit n. ok "";
}

abbrev approval : String → Request
approval method = record {
  method = method;
  path = "/api/actions/a1/approve";
  limit = "";
  limit_value = none;
  event_body = err "EOF";
  workflows_body = err "EOF";
  plugin_body = err "EOF";
}

posted : serve counter (approval "POST") 4 ≡ (5, action reply)
unfolding serve route route_read route_tree action_mutation action_operation operation split_slash
    two_parts trim_prefix has_prefix strip_prefix
posted = refl

get_is_other : (approval "GET").method ≢ "POST"
get_is_other p = let q : false ≡ true = (eq_iff "GET" "POST").1 p in cc

serve-read_only_example : (serve counter (approval "GET") 4).0 ≡ 4
serve-read_only_example = serve-read_only counter (approval "GET") 4 get_is_other
