-- ===== src/Commands/Ctl/Mutates.antt =====
-- The client's commands on actions, sent to the server of the API.
use Prim.Native.Char.{code}
use auxitalk.Base.{
  ℕ, String, Bool, true, false, ◌||◌, ◌&&◌, leb, ◌==◌, ◌≢◌, arith, List, [], ◌∷◌, none, some,
  Result, ok, err, ◌≡◌, refl, ap, ◌∙◌, string_eq, nat_eq,
}
use auxitalk.Base.Text.{concat}
use auxitalk.Types.Action.{ActionRequest}
use auxitalk.Control.Service.{RuntimeApi}
use auxitalk.Control.{
  Request, Answer, failure, no_content, action, serve, finish_action, action_operation,
}
use auxitalk.Control.Paths.{has_slash}
use auxitalk.Control.Approvals.Served.{serve-action}
use auxitalk.Commands.Ctl.{
  Call, Reply, Machine, Ended, fails, succeeds, answered, request, mutate_action, with_argument,
  main,
}

-- The characters that RFC 3986 leaves unreserved: letters, digits and - . _ ~
unfoldable pub unreserved : ℕ → Bool
unreserved c =
    (leb 48 c && leb c 57)
    || (leb 65 c && leb c 90)
    || (leb 97 c && leb c 122)
    || c == 45
    || c == 46
    || c == 95
    || c == 126

unfoldable pub all_unreserved : String → Bool
unfolding unreserved
all_unreserved String.[] = true
all_unreserved (String.◌∷◌ c s) = unreserved (code c) && all_unreserved s

-- A path segment that net/url leaves as it is, and that ServeMux does not clean away.
pub record IsPlain (id : String) : Type 0 where
  pub characters : all_unreserved id ≡ true
  pub not_empty : id ≢ ""
  pub not_dot : id ≢ "."
  pub not_dots : id ≢ ".."

unreserved-slash : (c : ℕ) → unreserved c ≡ true → (c == 47) ≡ false
unfolding unreserved
unreserved-slash c h = ground arith

all_unreserved-has_slash : (s : String) → all_unreserved s ≡ true → has_slash s ≡ false
unfolding all_unreserved has_slash
all_unreserved-has_slash String.[] h = refl
all_unreserved-has_slash (String.◌∷◌ c s) h =
    ground (arith, unreserved-slash (code c), all_unreserved-has_slash s)

-- the status code of an answer
unfoldable pub code_of : Answer → ℕ
code_of (failure code e) = code
code_of no_content = 204
code_of other = 200

-- The client at the server: net/http carries a call to `deliver`, and an answer back with its status
-- and body as the server's encoding gives them.
module _ {S : Type 0} (service : RuntimeApi S) (deliver : Call → Request) (status_of : ℕ → String)
    (body_of : Answer → String) (m : Machine S) where
  unfoldable pub replied : S × Answer → S × Result Reply
  unfolding code_of
  replied (s, a) =
      (s, ok (record { status_code = code_of a; status = status_of (code_of a); body = body_of a }))

  abbrev pub connected : Machine S
  connected = record m { send = λ c s. replied (serve service (deliver c) s) }

  -- the call of mutateAction
  abbrev pub mutation : (core id op : String) → Call
  mutation core id op = record {
    method = "POST";
    url = concat (core ∷ "/api/actions/" ∷ id ∷ "/" ∷ op ∷ []);
    content_type = "";
    body = none;
  }

  -- what the client prints of the runtime's answer
  abbrev pub told : (op id : String) → S × Result ActionRequest → S × Ended
  told op id (s, err e) = (s, fails ("error: server returned " ∷ status_of 400 ∷ "\n" ∷ []))
  told op id (s, ok a) =
      (s, succeeds (op ∷ " action " ∷ id ∷ ":\n" ∷ m.shown_map (body_of (action a)) ∷ "\n" ∷ []))

  -- NewRequest takes the call of mutateAction, and net/http carries it with its method and its path.
  pub record IsCarried (core id op : String) : Type 0 where
    pub built : m.new_request (mutation core id op) ≡ none
    pub method : (deliver (mutation core id op)).method ≡ "POST"
    pub path : (deliver (mutation core id op)).path ≡ concat ("/api/actions/" ∷ id ∷ "/" ∷ op ∷ [])

  module _ (core log id : String) (args : List String) (s : S) (plain : IsPlain id) where
    told-finished :
        (op : String) (x : S × Result ActionRequest)
        → answered connected
            (λ r. op ∷ " action " ∷ id ∷ ":\n" ∷ m.shown_map r.body ∷ "\n" ∷ [])
            (replied (finish_action service x))
          ≡ told op id x
    unfolding answered replied
    told-finished op (t, err e) = refl
    told-finished op (t, ok a) = refl

    carried :
        (done : Reply → List String) (c : Call)
        → m.new_request c ≡ none
        → request connected done c s
          ≡ answered connected done (replied (serve service (deliver c) s))
    unfolding request
    carried done c e = rw (e, request) refl

    sent :
        (op : String)
        → has_slash op ≡ false
        → IsCarried core id op
        → mutate_action connected core id op s
          ≡ answered connected
              (λ r. op ∷ " action " ∷ id ∷ ":\n" ∷ m.shown_map r.body ∷ "\n" ∷ [])
              (replied (action_operation service (some (id, op)) s))
    unfolding mutate_action
    sent op h c =
        let done : Reply → List String =
          λ r. op ∷ " action " ∷ id ∷ ":\n" ∷ m.shown_map r.body ∷ "\n" ∷ [] in
        carried done (mutation core id op) c.built
        ∙ ap (λ x. answered connected done (replied x))
            (serve-action service (deliver (mutation core id op)) s id op c.method c.path
              (all_unreserved-has_slash id plain.characters) h)

    -- `auxitalkctl approve <id>` and `auxitalkctl deny <id>`, for an id of unreserved characters other
    -- than "", "." and "..", approve and deny the action with exactly this id and do nothing else to
    -- the runtime, and print the action or, if the runtime refuses, the server's status. This is if
    -- NewRequest takes these two calls, and net/http carries them with their method and their
    -- path, and the answers back.
    pub mutates-action :
        IsCarried core id "approve"
        → IsCarried core id "deny"
        → (main connected core log ("approve" ∷ id ∷ args) s
            ≡ told "approve" id (service.approve_action id s))
          × (main connected core log ("deny" ∷ id ∷ args) s
              ≡ told "deny" id (service.deny_action id s))
    unfolding main with_argument action_operation has_slash
    mutates-action approves denies = (
      sent "approve" refl approves ∙ told-finished "approve" (service.approve_action id s),
      sent "deny" refl denies ∙ told-finished "deny" (service.deny_action id s),
    )
