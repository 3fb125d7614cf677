-- ===== src/Control/Approvals/Served.antt =====
-- Where a POST to /api/actions/<id>/<operation> ends.
use Prim.Native.String
use text.Mathlib.TextLemmas.{append-nil}
use auxitalk.Base.{
  String, Bool, true, false, [], ◌∷◌, Option, none, some, ◌≡◌, refl, sym, ap, ◌∙◌, inl, inr, ◌==◌,
  string_eq, eq_iff, Bool-cases,
}
use auxitalk.Base.Text.{concat, strip_prefix, has_prefix, trim_prefix}
use auxitalk.Control.Service.{RuntimeApi}
use auxitalk.Control.{
  Request, split_slash, two_parts, operation, action_operation, action_mutation, route_tree,
  route_read, route, serve,
}
use auxitalk.Control.Paths.{has_slash, strip_prefix-append, slash-two_parts}

-- the two parts behind /api/actions/
parts_at : String → Option (String × String)
parts_at path = elim (strip_prefix "/api/actions/" path) [
  | none ↦ none
  | some s ↦ two_parts (split_slash s)
]

module _ {S : Type 0} (service : RuntimeApi S) (r : Request) (s : S) (id op : String)
    (posted : r.method ≡ "POST") (path : r.path ≡ concat ("/api/actions/" ∷ id ∷ "/" ∷ op ∷ []))
    (free : has_slash id ≡ false) (op_free : has_slash op ≡ false) where
  stripped : strip_prefix "/api/actions/" r.path ≡ some (String.◌++◌ id (String.◌++◌ "/" op))
  unfolding concat
  stripped =
      ap (strip_prefix "/api/actions/") (
        path
        ∙ ap (λ o. String.◌++◌ "/api/actions/" (String.◌++◌ id (String.◌++◌ "/" o)))
            (append-nil op))
      ∙ strip_prefix-append "/api/actions/" (String.◌++◌ id (String.◌++◌ "/" op))

  parts : parts_at r.path ≡ some (id, op)
  unfolding parts_at
  parts =
      ap
        (λ o. elim o as (λ _. Option (String × String)) [
          | none ↦ none
          | some t ↦ two_parts (split_slash t)
        ])
        stripped
      ∙ slash-two_parts id op free op_free

  other : (p : String) → parts_at p ≡ none → (r.path == p) ≡ false
  other p n = elim (Bool-cases (r.path == p)) [
    | inl y ↦
        (let k : ◌≡◌ {A = Option (String × String)} (some (id, op)) none =
            sym parts ∙ ap parts_at ((eq_iff r.path p).0 y) ∙ n in
          cc)
    | inr f ↦ f
  ]

  at_tree : has_prefix r.path "/api/actions/" ≡ true
  unfolding has_prefix
  at_tree = ap (λ o. elim o as (λ _. Bool) [ none ↦ false | some _ ↦ true ]) stripped

  at_operation : operation "/api/actions/" r ≡ some (id, op)
  unfolding operation trim_prefix
  at_operation =
      ap (λ o. two_parts (split_slash (elim o as (λ _. String) [ none ↦ r.path | some t ↦ t ])))
        stripped
      ∙ slash-two_parts id op free op_free

  action_mutation-served : action_mutation service r s ≡ action_operation service (some (id, op)) s
  unfolding action_mutation
  action_mutation-served =
      rw ((eq_iff r.method "POST").1 posted, action_mutation, at_operation) refl

  not_options : (r.method == "OPTIONS") ≡ false
  not_options = rw (posted) refl

  -- A POST to /api/actions/<id>/<operation>, with no slash in either, is the operation on this id.
  pub serve-action : serve service r s ≡ action_operation service (some (id, op)) s
  unfolding serve route route_read route_tree parts_at split_slash two_parts strip_prefix
  serve-action =
      rw
        (
          not_options,
          serve,
          route,
          route_read,
          route_tree,
          at_tree,
          action_mutation-served,
          other "/api/plugins/configure" refl,
          other "/api/events" refl,
          other "/api/workflows/reload" refl,
          other "/health" refl,
          other "/api/status" refl,
          other "/api/plugins" refl,
          other "/api/events/stream" refl,
          other "/api/actions" refl,
          other "/api/actions/stream" refl,
          other "/api/workflows" refl,
          other "/api/logs" refl,
          other "/api/logs/stream" refl,
        )
        refl
