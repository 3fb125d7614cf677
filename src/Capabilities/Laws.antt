-- ===== src/Capabilities/Laws.antt =====
-- A capability is run for its owner only, and keeps the owner that registered it first.
use auxitalk.Base.{
  String, List, [], ◌∷◌, Option, some, ok, ◌≡◌, ◌↔◌, refl, arith, eq_iff, string_eq, inl, inr,
  Option-cases,
}
use auxitalk.Base.Map.{lookup, lookup-put}
use auxitalk.Types.Plugin.{PluginManifest, Capability}
use auxitalk.Capabilities.{
  Router, CapabilityInfo, register_capability, register_all, register, resolve,
}

module _ {H : Type 0} where
  -- A call finds a handler exactly when the capability is registered, by the plugin that is named,
  -- with a handler that is not nil.
  pub resolve_iff :
      (plugin_id capability : String) (h : H) (r : Router H)
      → (resolve plugin_id capability r ≡ ok h) ↔ (
          (info : CapabilityInfo H) × (lookup capability r ≡ some info)
          × (info.plugin_id ≡ plugin_id)
          × (info.handler ≡ some h))
  unfolding resolve
  resolve_iff plugin_id capability h r = elim (Option-cases (lookup capability r)) [
    | inl e ↦ rw (e, resolve) ((λ p. cc), (λ (i, q, o, t). cc))
    | inr (info, e) ↦
        rw (e, resolve)
          (
            (λ p. (
              info,
              refl,
              ground (arith, eq_iff info.plugin_id plugin_id),
              ground (arith, eq_iff info.plugin_id plugin_id),
            )),
            (λ (i, q, o, t). ground (arith, eq_iff info.plugin_id plugin_id)),
          )
  ]

  register_capability-old :
      (plugin_id : String) (manifest : PluginManifest) (capability c : String) (h : Option H)
      (r : Router H) (info : CapabilityInfo H)
      → lookup c r ≡ some info
      → lookup c (register_capability plugin_id manifest capability h r).0 ≡ some info
  unfolding register_capability
  register_capability-old plugin_id manifest capability c h r info e = ground (
    arith,
    lookup-put capability c (record { plugin_id = plugin_id; manifest = manifest; handler = h }) r,
    eq_iff capability c,
  )

  register_all-old :
      (cs : List Capability) (plugin_id : String) (manifest : PluginManifest) (c : String)
      (h : Option H) (r : Router H) (info : CapabilityInfo H)
      → lookup c r ≡ some info
      → lookup c (register_all cs plugin_id manifest h r).0 ≡ some info
  unfolding register_all
  register_all-old [] plugin_id manifest c h r info e = e
  register_all-old (x ∷ cs) plugin_id manifest c h r info e = ground (
    arith,
    register_capability-old plugin_id manifest x.name c h r info e,
    register_all-old cs plugin_id manifest c h (register_capability plugin_id manifest x.name h r).0
        info,
  )

  -- Whatever another plugin registers, failing or not, a registered capability keeps its entry: its
  -- owner, its manifest and its handler.
  pub register_keeps :
      (plugin_id : String) (manifest : PluginManifest) (h : Option H) (c : String) (r : Router H)
      (info : CapabilityInfo H)
      → lookup c r ≡ some info
      → lookup c (register plugin_id manifest h r).0 ≡ some info
  unfolding register
  register_keeps plugin_id manifest h c r info e =
      ground (arith, register_all-old manifest.capabilities plugin_id manifest c h r info e)
