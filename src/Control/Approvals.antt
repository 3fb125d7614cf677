-- ===== src/Control/Approvals.antt =====
-- Which requests approve an action, read off the request.
pub mod Logged
pub mod Served
use Prim.Native.String
use auxitalk.Base.{
  arith, String, Bool, true, false, List, [], ◌∷◌, Option, none, some, ◌≡◌, ◌↔◌, refl, sym, ap, ◌∙◌,
  inl, inr, ◌==◌, string_eq, eq_iff, if◌then◌else◌, Option-cases, Bool-cases,
}
use auxitalk.Base.Text.{concat, strip_prefix, has_prefix, trim_prefix}
use auxitalk.Control.{Request, split_slash, two_parts}
use auxitalk.Control.Paths.{
  has_slash, strip_prefix-append, append-strip_prefix, two_parts-slash, slash-two_parts,
}

-- the id that stands before "approve", in a list for none or one
unfoldable pub approved_part : Option (String × String) → List String
approved_part none = []
approved_part (some (id, op)) = if op == "approve" then id ∷ [] else []

unfoldable pub approved_at : String → List String
unfolding approved_part split_slash two_parts
approved_at path =
    if has_prefix path "/api/actions/"
    then approved_part (two_parts (split_slash (trim_prefix path "/api/actions/")))
    else []

-- the id that a request approves: a POST to /api/actions/<id>/approve
unfoldable pub approved_by : Request → List String
unfolding approved_at
approved_by r = if r.method == "POST" then approved_at r.path else []

approved_part_iff :
    (o : Option (String × String)) (id : String)
    → (approved_part o ≡ id ∷ []) ↔ (o ≡ some (id, "approve"))
unfolding approved_part
approved_part_iff none id = ground arith
approved_part_iff (some (i, op)) id = ground (arith, eq_iff op "approve")

approved_at-path :
    (path id : String)
    → approved_at path ≡ id ∷ []
    → (path ≡ concat ("/api/actions/" ∷ id ∷ "/approve" ∷ [])) × (has_slash id ≡ false)
unfolding approved_at has_prefix trim_prefix concat
approved_at-path path id e = elim (Option-cases (strip_prefix "/api/actions/" path)) [
  | inl n ↦ ground arith
  | inr (s, q) ↦
      (let p : approved_part (two_parts (split_slash s)) ≡ id ∷ [] = ground arith in
        let x = two_parts-slash s id "approve" ((approved_part_iff _ id).0 p) in
        (append-strip_prefix "/api/actions/" path s q ∙ ap (String.◌++◌ "/api/actions/") x.0, x.1))
]

approved_at-stripped :
    (path s : String)
    → strip_prefix "/api/actions/" path ≡ some s
    → approved_at path ≡ approved_part (two_parts (split_slash s))
unfolding approved_at has_prefix trim_prefix
approved_at-stripped path s e =
    ap
      (λ o.
        if elim o [ none ↦ false | some _ ↦ true ]
        then approved_part (two_parts (split_slash (elim o [ none ↦ path | some t ↦ t ])))
        else [])
      e

path-approved_at :
    (id : String)
    → has_slash id ≡ false
    → approved_at (concat ("/api/actions/" ∷ id ∷ "/approve" ∷ [])) ≡ id ∷ []
unfolding concat has_slash
path-approved_at id h =
    let s = String.◌++◌ id "/approve" in
    approved_at-stripped _ s (strip_prefix-append "/api/actions/" s)
    ∙ (approved_part_iff _ id).1 (slash-two_parts id "approve" h refl)

-- A request approves the action `id` exactly when it is a POST to /api/actions/<id>/approve and the
-- id has no slash.
approved_by_iff :
    (r : Request) (id : String)
    → (approved_by r ≡ id ∷ []) ↔ (
        (r.method ≡ "POST")
        × (r.path ≡ concat ("/api/actions/" ∷ id ∷ "/approve" ∷ []))
        × (has_slash id ≡ false))
unfolding approved_by
approved_by_iff r id = (to, from)
  where
    to :
        approved_by r ≡ id ∷ []
        → (r.method ≡ "POST")
          × (r.path ≡ concat ("/api/actions/" ∷ id ∷ "/approve" ∷ []))
          × (has_slash id ≡ false)
    to e = elim (Bool-cases (r.method == "POST")) [
      | inl y ↦
          (let k : approved_at r.path ≡ id ∷ [] = ground (arith, y, e) in
            let x = approved_at-path r.path id k in ((eq_iff r.method "POST").0 y, x.0, x.1))
      | inr n ↦ ground (arith, n, e)
    ]

    from :
        (r.method ≡ "POST")
          × (r.path ≡ concat ("/api/actions/" ∷ id ∷ "/approve" ∷ []))
          × (has_slash id ≡ false)
        → approved_by r ≡ id ∷ []
    from (m, p, h) = rw ((eq_iff r.method "POST").1 m, approved_by, p) (path-approved_at id h)
