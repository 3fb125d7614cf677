-- ===== src/Capabilities.antt =====
-- internal/capabilities/router.go. `H` stands for the handlers; a nil handler is `none`.
pub mod Laws
mod Tests
use auxitalk.Base.{
  String, Bool, List, [], ◌∷◌, Option, none, some, Error, Result, ok, err, ◌==◌, string_eq,
  if◌then◌else◌, concat, not,
}
use auxitalk.Base.Map.{lookup, put, has}
use auxitalk.Types.Plugin.{PluginManifest, Capability}
use auxitalk.Types.Plugin

pub record CapabilityInfo (H : Type 0) : Type 0 where
  pub plugin_id : String
  pub manifest : PluginManifest
  pub handler : Option H

abbrev pub Router : Type 0 → Type 0
Router H = List (String × CapabilityInfo H)

abbrev invalid_manifest : Error → Error
invalid_manifest e = concat ("invalid manifest: " ∷ e ∷ [])

module _ {H : Type 0} where
  pub register_capability :
      String → PluginManifest → String → Option H → Router H → Router H × Option Error
  register_capability plugin_id manifest capability handler r = elim (Plugin.validate manifest) [
    | some e ↦ (r, some (invalid_manifest e))
    | none ↦ elim (lookup capability r) [
      | some _ ↦ (r, some (concat ("capability " ∷ capability ∷ " already registered" ∷ [])))
      | none ↦ (
        put capability (record { plugin_id = plugin_id; manifest = manifest; handler = handler }) r,
        none,
      )
    ]
  ]

  -- the loop of Register
  pub register_all :
      List Capability → String → PluginManifest → Option H → Router H → Router H × Option Error
  register_all [] plugin_id manifest handler r = (r, none)
  register_all (c ∷ cs) plugin_id manifest handler r =
      let (r', o) = register_capability plugin_id manifest c.name handler r in
      (elim o [ some e ↦ (r', some e) | none ↦ register_all cs plugin_id manifest handler r' ])

  pub register : String → PluginManifest → Option H → Router H → Router H × Option Error
  unfolding register_all
  register plugin_id manifest handler r = elim (Plugin.validate manifest) [
    | some e ↦ (r, some (invalid_manifest e))
    | none ↦ register_all manifest.capabilities plugin_id manifest handler r
  ]

  -- Call up to the handler that it runs.
  pub resolve : String → String → Router H → Result H
  resolve plugin_id capability r = elim (lookup capability r) [
    | none ↦ err (concat ("capability not found: " ∷ capability ∷ []))
    | some info ↦
        if not (info.plugin_id == plugin_id)
        then err
            (concat ("permission denied: plugin " ∷ plugin_id ∷ " does not own " ∷ capability ∷ []))
        else (elim info.handler [
          | none ↦ err (concat ("capability " ∷ capability ∷ " has no handler" ∷ []))
          | some h ↦ ok h
        ])
  ]

  -- `invoke` runs a handler.
  pub call : {A : Type 0} → (H → A → Result A) → String → String → A → Router H → Result A
  unfolding resolve
  call invoke plugin_id capability params r = elim (resolve plugin_id capability r) [
    | err e ↦ err e
    | ok h ↦ invoke h params
  ]

  pub has_capability : String → Router H → Bool
  unfolding has
  has_capability capability r = has capability r

-- the loop of List, over the names
pub names : {V : Type 0} → List (String × V) → List String
names [] = []
names ((k, v) ∷ r) = k ∷ names r

pub list : {H : Type 0} → (Router H → Router H) → Router H → List String
unfolding names
list order r = names (order r)
