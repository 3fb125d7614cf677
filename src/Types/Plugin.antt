-- ===== src/Types/Plugin.antt =====
-- pkg/types/plugin.go
use auxitalk.Base.{
  String, Bool, List, [], ◌∷◌, ◌||◌, Option, none, some, Error, or_else, ◌==◌, string_eq,
  if◌then◌else◌, is_blank, not,
}
use auxitalk.Types.Value.{Fields}

pub record Capability : Type 0 where
  pub name : String
  pub input_schema : Fields
  pub output_schema : Fields

pub validate_capability : Capability → Option Error
validate_capability c = if is_blank c.name then some "capability name is required" else none

pub record PluginManifest : Type 0 where
  pub id : String
  pub name : String
  pub version : String
  pub runtime : String
  pub entry : String
  pub kind : String
  pub permissions : List String
  pub capabilities : List Capability

-- the cases of `switch m.Kind`
pub is_kind : String → Bool
is_kind k =
    k == "input"
    || k == "output"
    || k == "ai"
    || k == "memory"
    || k == "ui"
    || k == "policy"
    || k == "tool"
    || k == "profile"

-- the loop over m.Capabilities
pub validate_capabilities : List Capability → Option Error
validate_capabilities [] = none
validate_capabilities (c ∷ cs) = or_else (validate_capability c) (validate_capabilities cs)

-- the loop over m.Permissions
pub validate_permissions : List String → Option Error
validate_permissions [] = none
validate_permissions (p ∷ ps) =
    if is_blank p then some "plugin permission cannot be empty" else validate_permissions ps

pub validate : PluginManifest → Option Error
validate m =
    if is_blank m.id
    then some "plugin id is required"
    else if is_blank m.name
    then some "plugin name is required"
    else if is_blank m.version
    then some "plugin version is required"
    else if is_blank m.runtime
    then some "plugin runtime is required"
    else if not (is_kind m.kind)
    then some "plugin kind is invalid"
    else or_else (validate_capabilities m.capabilities) (validate_permissions m.permissions)
