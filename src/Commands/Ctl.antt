-- ===== src/Commands/Ctl.antt =====
-- cmd/auxitalkctl/main.go. The flags are parsed; `core` and `log` are their values, `args` what is left.
pub mod Mutates
use auxitalk.Base.{
  ℕ, leb, String, Bool, true, false, List, [], ◌∷◌, Option, none, some, Error, Result, ok, err,
  ◌==◌, string_eq, if◌then◌else◌, concat,
}

-- A request of the client: `body` is `none` for nil, `content_type` "" if the header is not set.
pub record Call : Type 0 where
  pub method : String
  pub url : String
  pub content_type : String
  pub body : Option String

pub record Reply : Type 0 where
  pub status_code : ℕ
  pub status : String
  pub body : String

-- How the process ends: what it has printed, and the status that it exits with. The tail that logs -f
-- runs prints for itself.
pub data Ended : Type 0 where
  printed : (exit : ℕ) → List String → Ended
  tailed : (path : String) → Ended

abbrev pub fails : List String → Ended
fails texts = printed 1 (concat texts ∷ [])

abbrev pub succeeds : List String → Ended
succeeds texts = printed 0 (concat texts ∷ [])

unfoldable pub usage : List String
usage =
    "auxitalkctl 0.1.0-dev\n" ∷ "commands:\n" ∷ "  status            Show full core status\n"
    ∷ "  plugins           List plugins\n" ∷ "  actions           List actions\n"
    ∷ "  workflows         List workflows\n"
    ∷ "  reload <config>   Reload workflows from config file\n"
    ∷ "  logs [-f]         Print or tail core log file\n"
    ∷ "  approve <id>      Approve an action by ID\n" ∷ "  deny <id>         Deny an action by ID\n"
    ∷ []

-- net/http, os and encoding/json: NewRequest refuses a URL with an error, Do sends a request over the
-- state `S`; `shown` is the text of json.MarshalIndent of what json.Unmarshal makes of a body, and
-- `shown_map` the same for a map.
pub record Machine (S : Type 0) : Type 0 where
  pub new_request : Call → Option Error
  pub send : Call → S → S × Result Reply
  pub read_file : String → Result String
  pub shown : String → String
  pub shown_map : String → String

module _ {S : Type 0} (m : Machine S) where
  unfoldable pub fetched : S × Result Reply → S × Ended
  fetched (s, err e) = (s, fails ("error: " ∷ e ∷ "\n" ∷ []))
  fetched (s, ok r) = (s, succeeds (m.shown r.body ∷ "\n" ∷ []))

  -- printStatus, printPlugins, printActions and printWorkflows, which fetch and print
  unfoldable pub print_fetched : String → S → S × Ended
  unfolding fetched
  print_fetched url s =
      fetched (m.send (record { method = "GET"; url = url; content_type = ""; body = none }) s)

  unfoldable pub print_logs : String → Bool → S → S × Ended
  print_logs path true s = (s, tailed path)
  print_logs path false s = elim (m.read_file path) [
    | err e ↦ (s, fails ("error reading logs: " ∷ e ∷ "\n" ∷ []))
    | ok text ↦ (s, printed 0 (text ∷ []))
  ]

  -- what follows Do in reloadWorkflows and mutateAction; `done` is what a success prints
  unfoldable pub answered : (done : Reply → List String) → S × Result Reply → S × Ended
  answered done (s, err e) = (s, fails ("error: " ∷ e ∷ "\n" ∷ []))
  answered done (s, ok r) =
      if leb 300 r.status_code
      then (s, fails ("error: server returned " ∷ r.status ∷ "\n" ∷ []))
      else (s, succeeds (done r))

  -- http.NewRequest, and Do
  unfoldable pub request : (done : Reply → List String) → Call → S → S × Ended
  unfolding answered
  request done c s = elim (m.new_request c) [
    | some e ↦ (s, fails ("error building request: " ∷ e ∷ "\n" ∷ []))
    | none ↦ answered done (m.send c s)
  ]

  unfoldable pub reload_workflows : (base config_path : String) → S → S × Ended
  unfolding request
  reload_workflows base config_path s = elim (m.read_file config_path) [
    | err e ↦ (s, fails ("error reading config: " ∷ e ∷ "\n" ∷ []))
    | ok text ↦
        request (λ r. "workflows reloaded" ∷ "\n" ∷ [])
          (record {
            method = "POST";
            url = concat (base ∷ "/api/workflows/reload" ∷ []);
            content_type = "application/json";
            body = some text;
          })
          s
  ]

  unfoldable pub mutate_action : (base id operation : String) → S → S × Ended
  unfolding request
  mutate_action base id operation s =
      request (λ r. operation ∷ " action " ∷ id ∷ ":\n" ∷ m.shown_map r.body ∷ "\n" ∷ [])
        (record {
          method = "POST";
          url = concat (base ∷ "/api/actions/" ∷ id ∷ "/" ∷ operation ∷ []);
          content_type = "";
          body = none;
        })
        s

  -- a command with an argument that it cannot do without
  unfoldable pub with_argument :
      (missing : String) → List String → (String → S → S × Ended) → S → S × Ended
  with_argument missing [] run s = (s, fails (missing ∷ "\n" ∷ []))
  with_argument missing (a ∷ args) run s = run a s

  unfoldable pub follows : List String → Bool
  follows [] = false
  follows (a ∷ args) = a == "-f"

  unfoldable pub main : (core log : String) → (args : List String) → S → S × Ended
  unfolding usage print_fetched print_logs reload_workflows mutate_action with_argument follows
  main core log [] s = (s, printed 0 usage)
  main core log (cmd ∷ args) s =
      if cmd == "status"
      then print_fetched (concat (core ∷ "/api/status" ∷ [])) s
      else if cmd == "plugins"
      then print_fetched (concat (core ∷ "/api/plugins" ∷ [])) s
      else if cmd == "actions"
      then print_fetched (concat (core ∷ "/api/actions" ∷ [])) s
      else if cmd == "workflows"
      then print_fetched (concat (core ∷ "/api/workflows" ∷ [])) s
      else if cmd == "reload"
      then with_argument "missing config file path" args (reload_workflows core) s
      else if cmd == "logs"
      then print_logs log (follows args) s
      else if cmd == "approve"
      then with_argument "missing action id" args (λ id. mutate_action core id "approve") s
      else if cmd == "deny"
      then with_argument "missing action id" args (λ id. mutate_action core id "deny") s
      else (s, fails ("unknown command: " ∷ cmd ∷ "\n" ∷ []))
