-- ===== src/Commands/Tests.antt =====
-- Runs of the programs, over a server that keeps the ids it has been given.
use auxitalk.Base.{
  arith, eq_iff, ℕ, String, List, [], ◌∷◌, ◌++◌, none, some, ok, err, ◌≡◌, refl, ap, string_eq,
}
use auxitalk.Base.Text.{concat, trim_prefix}
use auxitalk.Types.Samples.{reply}
use auxitalk.Control.Service.{RuntimeApi}
use auxitalk.Control.{Request, Answer}
use auxitalk.Control.Paths.{strip_prefix-append}
use auxitalk.Commands.Logger.{new_logger, init, Written, printf}
use auxitalk.Commands.Ctl.{Call, Machine, printed, main, with_argument}
use auxitalk.Commands.Ctl.Mutates.{
  IsPlain, IsCarried, all_unreserved, connected, mutation, mutates-action,
}

-- keeps the ids that are approved, and refuses to deny
abbrev keeper : RuntimeApi (List String)
keeper = record {
  approve_action = λ id s. (s ++ id ∷ [], ok reply);
  deny_action = λ id s. (s, err "action not found");
  reload_workflows = λ ws s. (s, none);
  enable_workflow = λ id s. (s, none);
  disable_workflow = λ id s. (s, none);
  emit_event = λ e s. (s, none);
  configure_plugin = λ id on env s. (s, none);
  logs = λ limit s. ok "";
}

abbrev core : String
core = "http://127.0.0.1:8090"

-- the path is what follows the address
abbrev deliver : Call → Request
deliver c = record {
  method = c.method;
  path = trim_prefix c.url core;
  limit = "";
  limit_value = none;
  event_body = err "EOF";
  workflows_body = err "EOF";
  plugin_body = err "EOF";
}

abbrev machine : Machine (List String)
machine = record {
  new_request = λ c. none;
  send = λ c s. (s, err "no server");
  read_file = λ p. err "no such file";
  shown = λ body. body;
  shown_map = λ body. body;
}

abbrev status_of : ℕ → String
status_of n = "400 Bad Request"

abbrev body_of : Answer → String
body_of a = "{}"

delivered :
    (op : String)
    → (deliver (mutation keeper deliver status_of body_of machine core "a1" op)).path
      ≡ concat ("/api/actions/" ∷ "a1" ∷ "/" ∷ op ∷ [])
unfolding concat trim_prefix
delivered op =
    ap
      (λ o. elim o as (λ _. String) [
        | none ↦ concat (core ∷ "/api/actions/" ∷ "a1" ∷ "/" ∷ op ∷ [])
        | some t ↦ t
      ])
      (strip_prefix-append core (concat ("/api/actions/" ∷ "a1" ∷ "/" ∷ op ∷ [])))

carried : (op : String) → IsCarried keeper deliver status_of body_of machine core "a1" op
carried op = record { built = refl; method = refl; path = delivered op }

plain : IsPlain "a1"
unfolding all_unreserved
plain = record {
  characters = refl;
  not_empty = ground (arith, eq_iff "a1" "");
  not_dot = ground (arith, eq_iff "a1" ".");
  not_dots = ground (arith, eq_iff "a1" "..");
}

mutates-action_example :
    (main (connected keeper deliver status_of body_of machine) core "" ("approve" ∷ "a1" ∷ []) []
      ≡ ("a1" ∷ [], printed 0 ("approve action a1:\n{}\n" ∷ [])))
    × (main (connected keeper deliver status_of body_of machine) core "" ("deny" ∷ "a1" ∷ []) []
        ≡ ([], printed 1 ("error: server returned 400 Bad Request\n" ∷ [])))
unfolding concat
mutates-action_example =
    mutates-action keeper deliver status_of body_of machine core "" "a1" [] [] plain
      (carried "approve") (carried "deny")

no_id : main machine core "" ("approve" ∷ []) [] ≡ ([], printed 1 ("missing action id\n" ∷ []))
unfolding main with_argument concat
no_id = refl

abbrev written : Written
written =
    printf "2026" "up" (init "logs/core.log" none (ok 3) new_logger).0
      (record { stdout = []; files = λ f. [] })

-- A line is written to the standard output and, once the logger is opened, to its file.
in_file : written.files 3 ≡ "2026 up" ∷ []
unfolding init printf concat
in_file = refl
