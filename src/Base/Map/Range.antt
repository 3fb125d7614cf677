-- ===== src/Base/Map/Range.antt =====
-- Iterations over a map: the entries in an arbitrary order.
use mathlib.Core.List.Perm
use mathlib.Core.List.{Perm, Mem, mem-cons, not-mem-nil, Mem-prop}
use mathlib.Core.Logic.Or
use mathlib.Core.Logic.{◌↔◌, ◌⊎◌, ◌≢◌, inl, inr, ∥∥₁_elim, ∥∥₁_map}
use mathlib.Core.Path.{◌≡◌, refl, sym, ap, ◌∙◌}
use mathlib.Core.HLevel.{×_prop}
use mathlib.Core.Bool.{Bool, true}
use mathlib.Core.Option.{Option, none, some}
use mathlib.Core.List.{List, [], ◌∷◌}
use native.Mathlib.Omega.{arith}
use auxitalk.Base.Tests.{Comparable, ◌==◌, Bool-cases}
use auxitalk.Base.Map.{lookup, put, delete, IsMap, select, values, lookup-put, lookup-delete}

-- The runtime may choose any order, and nothing else.
abbrev pub IsOrder {ℓ κ} : {K : Type ℓ} {V : Type κ} → (List (K × V) → List (K × V)) → Type (ℓ ⊔ κ)
IsOrder {K} {V} order = (m : List (K × V)) → Perm (order m) m

module _ {ℓ κ} {K : Type ℓ} {V : Type κ} ⦃e : Comparable K⦄ where
  -- What a lookup finds in a map that a key was put in.
  pub put-found :
      (k j : K) (v w : V) (m : List (K × V))
      → lookup j (put k v m) ≡ some w
      → ((j ≡ k) × (v ≡ w)) ⊎ (lookup j m ≡ some w)
  put-found k j v w m h = elim (Bool-cases (k == j)) [
    | inl s ↦ inl (sym ((e.equal_iff k j).0 s), ground (arith, lookup-put k j v m))
    | inr d ↦ inr (ground (arith, lookup-put k j v m))
  ]

  pub delete-found :
      (k j : K) (w : V) (m : List (K × V))
      → IsMap m
      → lookup j (delete k m) ≡ some w
      → lookup j m ≡ some w
  delete-found k j w m d h = elim (Bool-cases (k == j)) [
    | inl s ↦ ground (arith, lookup-delete k j m d)
    | inr n ↦ ground (arith, lookup-delete k j m d)
  ]

  pub lookup-put_same : (k : K) (v : V) (m : List (K × V)) → lookup k (put k v m) ≡ some v
  lookup-put_same k v m = ground (arith, lookup-put k k v m, e.equal_iff k k)

  pub lookup-put_other :
      (k j : K) (v : V) (m : List (K × V)) → k ≢ j → lookup j (put k v m) ≡ lookup j m
  lookup-put_other k j v m d = ground (arith, lookup-put k j v m, e.equal_iff k j)

  pub lookup-delete_same : (k : K) (m : List (K × V)) → IsMap m → lookup k (delete k m) ≡ none
  lookup-delete_same k m d = ground (arith, lookup-delete k k m d, e.equal_iff k k)

  pub lookup-delete_other :
      (k j : K) (m : List (K × V)) → IsMap m → k ≢ j → lookup j (delete k m) ≡ lookup j m
  lookup-delete_other k j m h d = ground (arith, lookup-delete k j m h, e.equal_iff k j)

module _ {K : Type 0} {V : Type 0} ⦃e : Comparable K⦄ (set : IsSet (Option V)) where
  lookup_of_mem : (k : K) (v : V) (m : List (K × V)) → IsMap m → Mem (k, v) m → lookup k m ≡ some v
  unfolding lookup
  lookup_of_mem k v [] h i = absurd (not-mem-nil i)
  lookup_of_mem k v ((j, w) ∷ m) h i =
      Or.elim (set _ _) (mem-cons.0 i)
        (λ p. ground (arith, e.equal_iff j k, ap (λ (q : K × V). q.0) p, ap (λ (q : K × V). q.1) p))
        (λ r. ground (arith, e.equal_iff j k, lookup_of_mem k v m h.1 r))

  mem_of_lookup : (k : K) (v : V) (m : List (K × V)) → lookup k m ≡ some v → Mem (k, v) m
  unfolding lookup
  mem_of_lookup k v [] h = absurd (cc)
  mem_of_lookup k v ((j, w) ∷ m) h = elim (Bool-cases (j == k)) [
    | inl s ↦ mem-cons.1 (Or.inl (ground (arith, e.equal_iff j k)))
    | inr d ↦ mem-cons.1 (Or.inr (mem_of_lookup k v m (ground arith)))
  ]

  -- An iteration meets exactly the entries that a lookup finds.
  pub mem-order :
      (order : List (K × V) → List (K × V)) (k : K) (v : V) (m : List (K × V))
      → IsOrder order
      → IsMap m
      → Mem (k, v) (order m) ↔ (lookup k m ≡ some v)
  mem-order order k v m o h = (
    λ i. lookup_of_mem k v m h ((Perm.mem_iff (o m)).0 i),
    λ p. (Perm.mem_iff (o m)).1 (mem_of_lookup k v m p),
  )

Bool_set : IsSet Bool
Bool_set = hlevel

module _ {K V : Type 0} where
  -- some entry of `m` has the value `v`, which passes the test
  abbrev Source : (V → Bool) → V → List (K × V) → Type 0
  Source p v m = ∥ ((k : K) × Mem (k, v) m × (p v ≡ true)) ∥₁

  Source-cons :
      (p : V → Bool) (v : V) (x : K × V) (m : List (K × V)) → Source p v m → Source p v (x ∷ m)
  Source-cons p v x m s = ∥∥₁_map s (λ (k, h, t). (k, mem-cons.1 (Or.inr h), t))

  mem_of_select : (p : V → Bool) (v : V) (m : List (K × V)) → Mem v (select p m) → Source p v m
  unfolding select
  mem_of_select p v [] i = absurd (not-mem-nil i)
  mem_of_select p v ((j, w) ∷ m) i = elim (Bool-cases (p w)) [
    | inl t ↦
        Or.elim squash₁ (mem-cons.0 (rw t at i))
          (λ e. ∣ (j, mem-cons.1 (Or.inl (ap (λ x. (j, x)) e)), ap p e ∙ t) ∣₁)
          (λ r. Source-cons p v (j, w) m (mem_of_select p v m r))
    | inr f ↦ Source-cons p v (j, w) m (mem_of_select p v m (rw f at i))
  ]

  select_of_mem :
      (p : V → Bool) (k : K) (v : V) (m : List (K × V))
      → p v ≡ true
      → Mem (k, v) m
      → Mem v (select p m)
  unfolding select
  select_of_mem p k v [] t i = absurd (not-mem-nil i)
  select_of_mem p k v ((j, w) ∷ m) t i =
      Or.elim Mem-prop (mem-cons.0 i)
        (λ e.
          let q : v ≡ w = ap (λ (x : K × V). x.1) e in
          rw (ap p (sym q) ∙ t) (mem-cons.1 (Or.inl q)))
        (λ r. elim (Bool-cases (p w)) [
          | inl y ↦ rw y (mem-cons.1 (Or.inr (select_of_mem p k v m t r)))
          | inr n ↦ rw n (select_of_mem p k v m t r)
        ])

  pub values-select : (m : List (K × V)) → values m ≡ select (λ _. true) m
  unfolding values select
  values-select [] = refl
  values-select ((k, v) ∷ m) = ap (λ l. v ∷ l) (values-select m)

module _ {K V : Type 0} ⦃e : Comparable K⦄ (set : IsSet (Option V)) (key : V → K) where
  -- Where each value stands under its own key, the values that an iteration selects are those that
  -- a lookup finds and that pass the test.
  pub mem-select :
      (order : List (K × V) → List (K × V)) (p : V → Bool) (v : V) (m : List (K × V))
      → IsOrder order
      → IsMap m
      → ((k : K) (w : V) → lookup k m ≡ some w → k ≡ key w)
      → Mem v (select p (order m)) ↔ ((lookup (key v) m ≡ some v) × (p v ≡ true))
  mem-select order p v m o h keyed = (
    λ i. ∥∥₁_elim (mem_of_select p v (order m) i) (×_prop (set _ _) (Bool_set _ _)) (λ (k, j, t).
        let found : lookup k m ≡ some v = (mem-order set order k v m o h).0 j in
        (rw (keyed k v found) at found, t)),
    λ (found, t).
        select_of_mem p (key v) v (order m) t ((mem-order set order (key v) v m o h).1 found),
  )
