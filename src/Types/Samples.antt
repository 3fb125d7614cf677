-- ===== src/Types/Samples.antt =====
-- Values for the tests: one event, one action, one rule and what they need.
use auxitalk.Base.{pos, true, [], ◌∷◌, none, ◌≡◌, refl}
use auxitalk.Base.Text.{is_blank, trim_space, trim_left, trim_right, is_space}
use auxitalk.Types.Value.{str, end, field}
use auxitalk.Types.Event.{Event}
use auxitalk.Types.Action.{ActionRequest, low, requested, is_risk, is_status}
use auxitalk.Types.Action
use auxitalk.Types.Event
use auxitalk.Types.Session
use auxitalk.Types.Session.{Session, Message, inbound, validate_message}
use auxitalk.Types.Plugin.{PluginManifest}
use auxitalk.Types.Workflow
use auxitalk.Types.Workflow.{
  validate_rules, seen_has, Workflow, WorkflowRule, WorkflowAction, validate_rule, validate_actions,
  get_actions,
}

abbrev pub greeting : Event
greeting = record {
  id = "e1";
  type = "message.received";
  source = "telegram";
  session_id = "s1";
  trace_id = "";
  depth = pos 0;
  payload = field "text" (str "hello") end;
  created_at = 5;
}

abbrev pub reply : ActionRequest
reply = record {
  id = "a1";
  type = "send_message";
  risk = low;
  status = requested;
  source = "workflow:greet";
  session_id = "s1";
  trace_id = "e1";
  depth = pos 1;
  payload = end;
  created_at = 6;
}

abbrev pub send : WorkflowAction
send = record {
  type = "send_message";
  risk = low;
  payload = field "text" (str "you wrote {{payload.text}} in {{session.id}}") end;
}

abbrev pub greet : WorkflowRule
greet = record {
  id = "greet";
  name = "greet";
  enabled = true;
  trigger = record { event_type = "message.received"; source = "telegram"; conditions = [] };
  action = none;
  actions = send ∷ [];
}

abbrev pub greeter : Workflow
greeter = record { id = "w1"; name = "greeter"; enabled = true; rules = greet ∷ [] }

abbrev pub talk : Session
talk = record {
  id = "s1";
  channel = "telegram";
  participants = [];
  messages = [];
  state = "active";
  metadata = end;
  created_at = 5;
  updated_at = 5;
}

abbrev pub hello : Message
hello = record {
  id = "m1";
  session_id = "s1";
  author_id = "u1";
  text = "hello";
  direction = inbound;
  source = "telegram";
  metadata = end;
  created_at = 5;
}

abbrev pub manifest : PluginManifest
manifest = record {
  id = "telegram";
  name = "Telegram";
  version = "0.1.0";
  runtime = "node";
  entry = "index.js";
  kind = "input";
  permissions = "events.publish" ∷ [];
  capabilities = record { name = "chat.send"; input_schema = end; output_schema = end } ∷ [];
}

pub greeting_valid : Event.validate greeting ≡ none
unfolding Event.validate is_blank trim_space trim_left trim_right is_space
greeting_valid = refl

pub reply_valid : Action.validate reply ≡ none
unfolding Action.validate is_risk is_status is_blank trim_space trim_left trim_right is_space
reply_valid = refl

pub talk_valid : Session.validate talk ≡ none
unfolding Session.validate is_blank trim_space trim_left trim_right is_space
talk_valid = refl

pub hello_valid : validate_message hello ≡ none
unfolding validate_message is_blank trim_space trim_left trim_right is_space
hello_valid = refl

pub greet_valid : validate_rule greet ≡ none
unfolding validate_rule validate_actions get_actions is_risk is_blank trim_space trim_left
    trim_right is_space
greet_valid = refl

pub greeter_valid : Workflow.validate greeter ≡ none
unfolding Workflow.validate validate_rules seen_has validate_rule validate_actions get_actions
    is_risk is_blank trim_space trim_left trim_right is_space
greeter_valid = refl
