-- ===== src/Config.antt =====
-- internal/config/config.go. Reading the file, encoding/json and the environment are arguments.
use auxitalk.Base.{
  ℕ, zero, suc, ◌+◌, ◌*◌, leb, nat_eq, ℤ, pos, ltb_ℤ, String, Bool, true, false, List, [], ◌∷◌,
  Option, none, some, Error, Result, ok, err, ◌==◌, string_eq, if◌then◌else◌, concat, is_blank,
  ◌&&◌, ◌||◌, not, or_else,
}
use Prim.Native.Char.{code}
use Prim.Native.String
use Prim.Native.String.{count}
use auxitalk.Base.Text.{strip_prefix}
use auxitalk.Types.Value.{Fields}
use auxitalk.Types.Plugin.{PluginManifest}
use auxitalk.Types.Plugin as Manifest
use auxitalk.Types.Workflow.{Workflow}
use auxitalk.Types.Workflow
use auxitalk.Actions.Gate.{mode_dev, mode_local, mode_strict}

-- the runtime's part; times are nanoseconds
pub record RuntimeConfig : Type 0 where
  pub request_timeout : ℤ
  pub health_timeout : ℤ
  pub max_payload_size : ℤ
  pub max_events_per_second : ℤ
  pub log_path : String

pub record ControlConfig : Type 0 where
  pub enabled : Bool
  pub addr : String

pub record PluginConfig : Type 0 where
  pub manifest : String
  pub enabled : Bool
  pub env : List (String × String)
  pub config : Fields
  pub inline : Option PluginManifest

pub record Config : Type 0 where
  pub mode : String
  pub runtime : RuntimeConfig
  pub sqlite_path : String
  pub control : ControlConfig
  pub plugins : List PluginConfig
  pub workflows : List Workflow

unfoldable pub default : Config
default = record {
  mode = mode_dev;
  runtime = record {
    request_timeout = pos 10_000_000_000;
    health_timeout = pos 2_000_000_000;
    max_payload_size = pos (1024 * 1024);
    max_events_per_second = pos 50;
    log_path = "";
  };
  sqlite_path = "";
  control = record { enabled = false; addr = "" };
  plugins = [];
  workflows = [];
}

-- x <= 0
abbrev pub not_positive : ℤ → Bool
not_positive x = ltb_ℤ x (pos 1)

-- the loop over the keys of env
unfoldable pub blank_key : List (String × String) → Bool
blank_key [] = false
blank_key ((k, v) ∷ env) = is_blank k || blank_key env

abbrev no_inline : Option PluginManifest → Bool
no_inline none = true
no_inline (some m) = false

abbrev validate_inline : Option PluginManifest → Option Error
validate_inline none = none
validate_inline (some m) = Manifest.validate m

unfoldable pub validate_plugin : PluginConfig → Option Error
unfolding blank_key
validate_plugin p =
    if is_blank p.manifest && no_inline p.inline
    then some "plugin manifest or inline manifest is required"
    else if blank_key p.env
    then some "plugin env key cannot be empty"
    else validate_inline p.inline

unfoldable pub validate_plugins : List PluginConfig → Option Error
unfolding validate_plugin
validate_plugins [] = none
validate_plugins (p ∷ ps) = or_else (validate_plugin p) (validate_plugins ps)

unfoldable pub validate_workflows : List Workflow → Option Error
validate_workflows [] = none
validate_workflows (w ∷ ws) = or_else (Workflow.validate w) (validate_workflows ws)

unfoldable pub is_mode : String → Bool
is_mode m = (m == mode_dev) || ((m == mode_local) || (m == mode_strict))

unfoldable pub validate_runtime : RuntimeConfig → Option Error
validate_runtime r =
    if not_positive r.request_timeout
    then some "runtime requestTimeout must be greater than zero"
    else if not_positive r.health_timeout
    then some "runtime healthTimeout must be greater than zero"
    else if not_positive r.max_payload_size
    then some "runtime maxPayloadSize must be greater than zero"
    else if not_positive r.max_events_per_second
    then some "runtime maxEventsPerSecond must be greater than zero"
    else none

unfoldable pub validate : Config → Option Error
unfolding is_mode validate_runtime validate_plugins validate_workflows
validate c =
    if not (is_mode c.mode)
    then some "config mode is invalid"
    else or_else (validate_runtime c.runtime)
        (or_else (validate_plugins c.plugins) (validate_workflows c.workflows))

-- Load, from the answers of os.ReadFile and of json.Unmarshal on the default configuration. With an
-- error it returns the empty configuration, except for a blank path.
unfoldable pub load :
    (path : String) (read : Option Error) (parsed : Config → Result Config) → Result Config
unfolding validate
load path read parsed =
    if is_blank path
    then elim (validate default) [ none ↦ ok default | some e ↦ err e ]
    else (elim read [
      | some e ↦ err (concat ("read config: " ∷ e ∷ []))
      | none ↦ elim (parsed default) [
        | err e ↦ err (concat ("parse config: " ∷ e ∷ []))
        | ok c ↦ elim (validate c) [ some e ↦ err e | none ↦ ok c ]
      ]
    ])

-- Save, from the answers of json.MarshalIndent and of os.WriteFile
unfoldable pub save : (marshalled : Result String) (write : String → Option Error) → Option Error
save (err e) write = some (concat ("marshal config: " ∷ e ∷ []))
save (ok data') write = elim (write data') [
  | some e ↦ some (concat ("write config: " ∷ e ∷ []))
  | none ↦ none
]

-- [A-Za-z_] and [A-Za-z0-9_]
abbrev is_letter : ℕ → Bool
is_letter c = (leb 65 c && leb c 90) || ((leb 97 c && leb c 122) || (c == 95))

abbrev is_word : ℕ → Bool
is_word c = is_letter c || (leb 48 c && leb c 57)

-- the rest of a name, up to the closing brace
unfoldable pub name_end : String → Option String
name_end String.[] = none
name_end (String.◌∷◌ c s) =
    let rest = name_end s in
    if code c == 125
    then some ""
    else if is_word (code c)
    then elim rest [ none ↦ none | some n ↦ some (String.◌∷◌ c n) ]
    else none

unfoldable pub name_start : String → Option String
unfolding name_end
name_start String.[] = none
name_start (String.◌∷◌ c s) =
    if is_letter (code c)
    then elim (name_end s) [ none ↦ none | some n ↦ some (String.◌∷◌ c n) ]
    else none

-- the name in a match of envPattern at the start of the text
unfoldable pub reference : String → Option String
unfolding name_start
reference s = elim (strip_prefix "${" s) [ none ↦ none | some rest ↦ name_start rest ]

module _ (variable : String → Option String) where
  abbrev value_of : String → String
  value_of name = elim (variable name) [ some v ↦ v | none ↦ "" ]

  -- ReplaceAllStringFunc; `skip` counts the characters of a match that are still to be passed over.
  unfoldable pub expand : ℕ → String → String
  unfolding reference
  expand skip String.[] = ""
  expand (suc skip) (String.◌∷◌ c s) = expand skip s
  expand zero (String.◌∷◌ c s) = elim (reference (String.◌∷◌ c s)) [
    | some name ↦ String.◌++◌ (value_of name) (expand (count name + 2) s)
    | none ↦ String.◌∷◌ c (expand zero s)
  ]

  unfoldable pub resolve : List (String × String) → List String
  unfolding expand
  resolve [] = []
  resolve ((k, v) ∷ env) = concat (k ∷ "=" ∷ expand zero v ∷ []) ∷ resolve env

  -- ResolvedEnv, in the order of the iteration over Env
  unfoldable pub resolved_env :
      (order : List (String × String) → List (String × String)) → PluginConfig → List String
  unfolding resolve
  resolved_env order p = resolve (order p.env)
