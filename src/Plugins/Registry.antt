-- ===== src/Plugins/Registry.antt =====
-- internal/plugins/registry.go and manifest.go.
pub mod Ordered
use auxitalk.Base.{
  ℕ, String, Bool, List, [], ◌∷◌, Option, none, some, Error, Result, ok, err, string_eq,
  if◌then◌else◌, concat, length,
}
use auxitalk.Base.Map.{lookup, put, values}
use auxitalk.Base.Text.Order.{less}
use auxitalk.Types.Plugin.{PluginManifest}
use auxitalk.Types.Plugin as Manifest

pub record ManifestFile : Type 0 where
  pub path : String
  pub dir : String
  pub manifest : PluginManifest

-- LoadManifest, from what os.ReadFile, json.Unmarshal, filepath.Abs and filepath.Dir answer
unfoldable pub load_manifest :
    (read : Option Error) (parsed : Result PluginManifest) (absolute : Result String)
    (dir : String → String)
    → Result ManifestFile
load_manifest read parsed absolute dir = elim read [
  | some e ↦ err (concat ("read plugin manifest: " ∷ e ∷ []))
  | none ↦ elim parsed [
    | err e ↦ err (concat ("parse plugin manifest: " ∷ e ∷ []))
    | ok m ↦ elim (Manifest.validate m) [
      | some e ↦ err (concat ("validate plugin manifest: " ∷ e ∷ []))
      | none ↦ elim absolute [
        | err e ↦ err (concat ("resolve plugin manifest path: " ∷ e ∷ []))
        | ok p ↦ ok (record { path = p; dir = dir p; manifest = m })
      ]
    ]
  ]
]

pub record Plugin : Type 0 where
  pub manifest_path : String
  pub root_dir : String
  pub manifest : PluginManifest

abbrev pub Registry : Type 0
Registry = List (String × Plugin)

-- NewRegistry
abbrev pub new_plugins : Registry
new_plugins = []

unfoldable pub register : Plugin → Registry → Registry × Option Error
register p r = elim (Manifest.validate p.manifest) [
  | some e ↦ (r, some e)
  | none ↦ elim (lookup p.manifest.id r) [
    | some _ ↦ (r, some (concat ("plugin already registered: " ∷ p.manifest.id ∷ [])))
    | none ↦ (put p.manifest.id p r, none)
  ]
]

unfoldable pub register_manifest : ManifestFile → Registry → Registry × Option Error
unfolding register
register_manifest f r =
    register (record { manifest_path = f.path; root_dir = f.dir; manifest = f.manifest }) r

unfoldable pub get : String → Registry → Option Plugin
get id r = lookup id r

-- sort.Slice by the manifests' ids
unfoldable pub insert_plugin : Plugin → List Plugin → List Plugin
insert_plugin p [] = p ∷ []
insert_plugin p (q ∷ qs) =
    let rest = insert_plugin p qs in
    if less q.manifest.id p.manifest.id then q ∷ rest else p ∷ q ∷ qs

unfoldable pub sort_plugins : List Plugin → List Plugin
unfolding insert_plugin
sort_plugins [] = []
sort_plugins (p ∷ ps) = insert_plugin p (sort_plugins ps)

unfoldable pub list : (order : Registry → Registry) → Registry → List Plugin
unfolding sort_plugins values
list order r = sort_plugins (values (order r))

abbrev pub count : Registry → ℕ
count r = length r
