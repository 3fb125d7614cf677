-- ===== src/Capabilities/Tests.antt =====
-- Runs of the router on a sample manifest, with texts for handlers.
use auxitalk.Base.{String, true, [], ◌∷◌, some, ok, ◌≡◌, ◌↔◌, refl, string_eq}
use auxitalk.Base.Map.{lookup}
use auxitalk.Types.Samples.{manifest}
use auxitalk.Capabilities.{
  Router, CapabilityInfo, register, resolve, call, has_capability, list, names,
}
use auxitalk.Capabilities.Laws.{resolve_iff, register_keeps}

abbrev entry : CapabilityInfo String
entry = record { plugin_id = "telegram"; manifest = manifest; handler = some "h" }

abbrev one : Router String
one = ("chat.send", entry) ∷ []

resolve_iff_example : (resolve "telegram" "chat.send" one ≡ ok "h") ↔ (
    (info : CapabilityInfo String) × (lookup "chat.send" one ≡ some info)
    × (info.plugin_id ≡ "telegram")
    × (info.handler ≡ some "h"))
resolve_iff_example = resolve_iff "telegram" "chat.send" "h" one

register_keeps_example :
    lookup "chat.send" (register "other" manifest (some "g") one).0 ≡ some entry
unfolding lookup
register_keeps_example = register_keeps "other" manifest (some "g") "chat.send" one entry refl

owner_called : call (λ h p. ok h) "telegram" "chat.send" "p" one ≡ ok "h"
unfolding call lookup
owner_called = refl

found : has_capability "chat.send" one ≡ true
unfolding has_capability
found = refl

names_listed : list (λ m. m) one ≡ "chat.send" ∷ []
unfolding list names
names_listed = refl
