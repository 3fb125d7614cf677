-- ===== src/Runtime/Host/Health.antt =====
-- When healthLoop announces that a plugin fails.
use auxitalk.Base.{
  ℕ, suc, ◌%◌, ℤ, pos, leb, String, List, [], ◌∷◌, Option, none, some, Error, ◌≡◌, refl, sym, ap,
  ◌∙◌, inl, inr, arith, ◌==◌, string_eq, nat_eq, eq_iff, if◌then◌else◌, concat, Bool-cases,
}
use auxitalk.Base.Map.{lookup, put, lookup-put}
use auxitalk.Types.Value.{Value, str, end, put_field}
use auxitalk.Types.Event.{Time}
use auxitalk.Runtime.Deps.{Runtime}
use auxitalk.Runtime.Publish.{Publisher}
use auxitalk.Runtime.Host.{announce, health_visit, failures_of}

abbrev pub next_row : Option Error → ℕ → ℕ
next_row none k = 0
next_row (some e) k = suc k

-- the failures of a plugin in a row, at the end of checks of any plugins, after `k` of them
unfoldable pub in_a_row : String → ℕ → List (String × Option Error) → ℕ
in_a_row id k [] = k
in_a_row id k ((j, e) ∷ checks) = in_a_row id (if j == id then next_row e k else k) checks

module _ (number : ℤ → Value) (time_at : ℕ → Time) (publish : Publisher) where
  -- the loop of healthLoop over its rounds and over the plugins
  unfoldable pub visit_all :
      List (String × Option Error) → List (String × ℕ) → Runtime → List (String × ℕ) × Runtime
  unfolding health_visit
  visit_all [] failures r = (failures, r)
  visit_all ((id, e) ∷ checks) failures r =
      let (failures', r') = health_visit number time_at publish id e failures r in
      visit_all checks failures' r'

  -- the event of a plugin that has failed three times
  abbrev pub announced : String → Error → Runtime → Runtime
  announced id e r =
      announce number time_at publish (concat (id ∷ "-health-" ∷ [])) "plugin.error"
        (put_field "error" (str e)
          (put_field "failures" (number (pos 3)) (put_field "id" (str id) end)))
        r

  counted : (f k : ℕ) → f ≡ k % 3 → (if leb 3 (suc f) then 0 else suc f) ≡ suc k % 3
  counted f k h = ground arith

  is_third : (f k : ℕ) → f ≡ k % 3 → leb 3 (suc f) ≡ (suc k % 3 == 0)
  is_third f k h = ground arith

  visit-put :
      (id : String) (e : Error) (failures : List (String × ℕ)) (r : Runtime)
      → (health_visit number time_at publish id (some e) failures r).0 ≡ (
          let f = failures_of number time_at publish id failures in
          put id (if leb 3 (suc f) then 0 else suc f) failures)
  unfolding health_visit
  visit-put id e failures r =
      let f = failures_of number time_at publish id failures in
      elim (Bool-cases (leb 3 (suc f))) [
        | inl y ↦ rw (y, health_visit) refl
        | inr n ↦ rw (n, health_visit) refl
      ]

  failures_of-put :
      (id j : String) (v : ℕ) (failures : List (String × ℕ))
      → failures_of number time_at publish id (put j v failures)
        ≡ (if j == id then v else failures_of number time_at publish id failures)
  failures_of-put id j v failures =
      ap (λ o. elim o as (λ _. ℕ) [ none ↦ 0 | some n ↦ n ]) (lookup-put j id v failures)
      ∙ elim (Bool-cases (j == id)) [ inl y ↦ rw y refl | inr n ↦ rw n refl ]

  visit-counted :
      (id j : String) (e : Option Error) (failures : List (String × ℕ)) (r : Runtime) (k : ℕ)
      → failures_of number time_at publish id failures ≡ k % 3
      → failures_of number time_at publish id (health_visit number time_at publish j e failures r).0
        ≡ (if j == id then next_row e k else k) % 3
  unfolding health_visit
  visit-counted id j none failures r k h =
      failures_of-put id j 0 failures
      ∙ elim (Bool-cases (j == id)) [ inl y ↦ rw y refl | inr n ↦ rw n h ]
  visit-counted id j (some e) failures r k h =
      let f = failures_of number time_at publish j failures in
      let v : ℕ = if leb 3 (suc f) then 0 else suc f in
      ap (failures_of number time_at publish id) (visit-put j e failures r)
      ∙ failures_of-put id j v failures
      ∙ elim (Bool-cases (j == id)) [
        | inl y ↦
            (let same =
                ap (λ i. failures_of number time_at publish i failures) ((eq_iff j id).0 y) in
              rw y (counted f k (same ∙ h)))
        | inr n ↦ rw n h
      ]

  all-counted :
      (id : String) (checks : List (String × Option Error)) (failures : List (String × ℕ))
      (r : Runtime) (k : ℕ)
      → failures_of number time_at publish id failures ≡ k % 3
      → failures_of number time_at publish id (visit_all checks failures r).0
        ≡ in_a_row id k checks % 3
  unfolding visit_all in_a_row
  all-counted id [] failures r k h = h
  all-counted id ((j, e) ∷ checks) failures r k h =
      all-counted id checks _ _ (if j == id then next_row e k else k)
        (visit-counted id j e failures r k h)

  third :
      (id : String) (e : Error) (failures : List (String × ℕ)) (r : Runtime) (k : ℕ)
      → failures_of number time_at publish id failures ≡ k % 3
      → (health_visit number time_at publish id (some e) failures r).1
        ≡ (if suc k % 3 == 0 then announced id e r else r)
  unfolding health_visit
  third id e failures r k h =
      let f = failures_of number time_at publish id failures in
      let t = is_third f k h in
      elim (Bool-cases (leb 3 (suc f))) [
        | inl y ↦
            (let three : suc f ≡ 3 = ground (arith, y, h) in
              rw (y, health_visit, sym t ∙ y)
                (ap
                  (λ n.
                    announce number time_at publish (concat (id ∷ "-health-" ∷ [])) "plugin.error"
                      (put_field "error" (str e)
                        (put_field "failures" (number (pos n)) (put_field "id" (str id) end)))
                      r)
                  three))
        | inr n ↦ rw (n, health_visit, sym t ∙ n) refl
      ]

  -- After any checks of any plugins, a failing check announces the failure of its plugin exactly if
  -- it is the third in a row, or the sixth, and so on; and then with the number 3. A row ends
  -- with a check of the plugin that succeeds; checks of others do not matter.
  pub health-third :
      (checks : List (String × Option Error)) (id : String) (e : Error) (r : Runtime)
      → (let after = visit_all checks [] r in
          (health_visit number time_at publish id (some e) after.0 after.1).1
          ≡ (if suc (in_a_row id 0 checks) % 3 == 0 then announced id e after.1 else after.1))
  unfolding lookup
  health-third checks id e r =
      let after = visit_all checks [] r in
      third id e after.0 after.1 (in_a_row id 0 checks) (all-counted id checks [] r 0 refl)
