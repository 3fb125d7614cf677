-- ===== src/Plugins/Registry/Ordered.antt =====
-- The plugins are listed by their ids, whatever the order of the iteration is.
use mathlib.Core.List.Permᴰ
use mathlib.Core.List.{Permᴰ, Mem, mem-cons}
use mathlib.Core.Logic.Or
use mathlib.Core.Option.{some-injective}
use mathlib.Core.List.Perm
use mathlib.Core.Logic.{∥∥₁_elim}
use auxitalk.Base.{
  String, Bool, true, false, List, [], ◌∷◌, Option, some, ◌≡◌, refl, sym, ap, ◌∙◌, inl, inr,
  Bool-cases, Option-cases, arith, string_eq, String-set,
}
use auxitalk.Base.Map.{lookup, values, IsMap, put-IsMap}
use auxitalk.Base.Map.Range.{IsOrder, values-select, mem-select, put-found}
use auxitalk.Base.Text.Order.{less, less_irrefl, less_trans, less_total}
use auxitalk.Types.Plugin as Manifest
use auxitalk.Plugins.Registry.{
  Registry, Plugin, insert_plugin, sort_plugins, list, register, new_plugins,
}

-- An id names one plugin of the list.
abbrev Named : List Plugin → Type 0
Named ps = (p q : Plugin) → Mem p ps → Mem q ps → p.manifest.id ≡ q.manifest.id → p ≡ q

abbrev before : Plugin → Plugin → Bool
before p q = less p.manifest.id q.manifest.id

before_asym : (p q : Plugin) → before p q ≡ true → before q p ≡ false
before_asym p q h = elim (Bool-cases (before q p)) [
  | inl k ↦ absurd (
      ground (
        arith,
        less_trans p.manifest.id q.manifest.id p.manifest.id h k,
        less_irrefl p.manifest.id,
      ))
  | inr n ↦ n
]

before_trans : (x p q : Plugin) → before p q ≡ true → before x p ≡ true → before x q ≡ true
before_trans x p q h k = less_trans x.manifest.id p.manifest.id q.manifest.id k h

insert_before :
    (p q : Plugin) (l : List Plugin)
    → before p q ≡ true
    → insert_plugin p (insert_plugin q l) ≡ insert_plugin q (insert_plugin p l)
unfolding insert_plugin
insert_before p q [] h = rw (h, before_asym p q h) refl
insert_before p q (x ∷ l) h = elim (Bool-cases (before x p)) [
  | inl xp ↦
      (let xq = before_trans x p q h xp in
        rw (xp, xq, xp) (ap (λ k. x ∷ k) (insert_before p q l h)))
  | inr xp ↦ elim (Bool-cases (before x q)) [
    | inl xq ↦ rw (xp, xq, h, xp) refl
    | inr xq ↦ rw (xp, xq, before_asym p q h, h) refl
  ]
]

insert_comm :
    (p q : Plugin) (l : List Plugin)
    → (p.manifest.id ≡ q.manifest.id → p ≡ q)
    → insert_plugin p (insert_plugin q l) ≡ insert_plugin q (insert_plugin p l)
insert_comm p q l h = elim (Bool-cases (before p q)) [
  | inl pq ↦ insert_before p q l pq
  | inr n ↦ elim (Bool-cases (before q p)) [
    | inl qp ↦ sym (insert_before q p l qp)
    | inr m ↦
        (let e = h (less_total p.manifest.id q.manifest.id n m) in
          ap (λ x. insert_plugin x (insert_plugin q l)) e
          ∙ ap (λ x. insert_plugin q (insert_plugin x l)) (sym e))
  ]
]

Named-tail : (p : Plugin) (ps : List Plugin) → Named (p ∷ ps) → Named ps
Named-tail p ps h a b i j = h a b (mem-cons.1 (Or.inr i)) (mem-cons.1 (Or.inr j))

Named-mem : (ps qs : List Plugin) → Permᴰ ps qs → Named ps → Named qs
Named-mem ps qs p h a b i j = h a b (Permᴰ.mem (Permᴰ.symm p) i) (Permᴰ.mem (Permᴰ.symm p) j)

sort-Permᴰ : {ps qs : List Plugin} → Permᴰ ps qs → Named ps → sort_plugins ps ≡ sort_plugins qs
unfolding sort_plugins
sort-Permᴰ Permᴰ.nil h = refl
sort-Permᴰ (Permᴰ.cons {a = a} {b = b} {l₁ = l} {l₂ = m} e p) h =
    ap (λ x. insert_plugin x (sort_plugins l)) e
    ∙ ap (insert_plugin b) (sort-Permᴰ p (Named-tail a l h))
sort-Permᴰ (Permᴰ.swap {a = a} {b = b} {a' = a'} {b' = b'} {l = l} e f) h =
    insert_comm a b (sort_plugins l)
      (h a b (mem-cons.1 (Or.inl refl)) (mem-cons.1 (Or.inr (mem-cons.1 (Or.inl refl)))))
    ∙ ap (λ x. insert_plugin x (insert_plugin a (sort_plugins l))) f
    ∙ ap (λ x. insert_plugin a' (insert_plugin x (sort_plugins l))) e
sort-Permᴰ (Permᴰ.trans p q) h = sort-Permᴰ p h ∙ sort-Permᴰ q (Named-mem _ _ p h)

List_set : IsSet (List Plugin)
List_set = hlevel String-set

-- the plugins of a registry stand under their ids
pub record IsPlugins (r : Registry) : Type 0 where
  pub is_map : IsMap r
  pub keyed : (id : String) (p : Plugin) → lookup id r ≡ some p → id ≡ p.manifest.id

Plugin_set : IsSet (Option Plugin)
Plugin_set = hlevel String-set

values-Permᴰ : {m n : Registry} → Permᴰ m n → Permᴰ (values m) (values n)
unfolding values
values-Permᴰ Permᴰ.nil = Permᴰ.nil
values-Permᴰ (Permᴰ.cons e p) = Permᴰ.cons (ap (λ x. x.1) e) (values-Permᴰ p)
values-Permᴰ (Permᴰ.swap e f) = Permᴰ.swap (ap (λ x. x.1) e) (ap (λ x. x.1) f)
values-Permᴰ (Permᴰ.trans p q) = Permᴰ.trans (values-Permᴰ p) (values-Permᴰ q)

listed :
    (order : Registry → Registry) (r : Registry) (p : Plugin)
    → IsOrder order
    → IsPlugins r
    → Mem p (values (order r))
    → lookup p.manifest.id r ≡ some p
listed order r p o h i =
    ((mem-select Plugin_set (λ x. x.manifest.id) order (λ _. true) p r o h.is_map h.keyed).0
      (rw (values-select (order r)) at i)).0

values-Named :
    (order : Registry → Registry) (r : Registry)
    → IsOrder order
    → IsPlugins r
    → Named (values (order r))
values-Named order r o h p q i j e =
    some-injective p q
      (sym (listed order r p o h i) ∙ ap (λ k. lookup k r) e ∙ listed order r q o h j)

register-IsPlugins : (p : Plugin) (r : Registry) → IsPlugins r → IsPlugins (register p r).0
unfolding register
register-IsPlugins p r h = elim (Option-cases (Manifest.validate p.manifest)) [
  | inr (e, bad) ↦ rw (bad, register) h
  | inl good ↦ elim (Option-cases (lookup p.manifest.id r)) [
    | inr (q, there) ↦ rw (good, there, register) h
    | inl free ↦
        rw (good, free, register)
          (record {
            is_map = put-IsMap p.manifest.id p r h.is_map;
            keyed = λ id x e. elim (put-found p.manifest.id id p x r e) [
              | inl (i, same) ↦ i ∙ ap (λ (y : Plugin). y.manifest.id) same
              | inr old ↦ h.keyed id x old
            ];
          })
  ]
]

-- the registry after a sequence of registrations, the last one first
abbrev pub registered : List Plugin → Registry
registered [] = new_plugins
registered (p ∷ ps) = (register p (registered ps)).0

registered-IsPlugins : (ps : List Plugin) → IsPlugins (registered ps)
unfolding lookup
registered-IsPlugins [] = record { is_map = tt; keyed = λ id p e. absurd (cc) }
registered-IsPlugins (p ∷ ps) = register-IsPlugins p (registered ps) (registered-IsPlugins ps)

-- After any sequence of registrations, whether they succeed or not, List gives the same list
-- whatever order the iteration over the registry has.
pub list_same :
    (order order' : Registry → Registry) (ps : List Plugin)
    → IsOrder order
    → IsOrder order'
    → list order (registered ps) ≡ list order' (registered ps)
unfolding list
list_same order order' ps o o' =
    let r = registered ps in
    ∥∥₁_elim (Perm.trans (o r) (Perm.symm (o' r))) (List_set _ _)
      (λ p. sort-Permᴰ (values-Permᴰ p) (values-Named order r o (registered-IsPlugins ps)))
