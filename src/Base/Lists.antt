-- ===== src/Base/Lists.antt =====
-- Lists measured by native numbers, predicates on all members, and Go's slice tails.
use Prim.Native.Nat.{ℕ, zero, suc, ◌+◌, ◌-◌, ◌≤◌}
use mathlib.Core.Path.{◌≡◌, refl, sym, ap, ◌∙◌, ◌≡⟨◌⟩◌, ◌∎}
use mathlib.Core.Logic.{inl, inr}
use mathlib.Core.List.{List, [], ◌∷◌, ◌++◌}
use native.Mathlib.Omega.{arith}
use auxitalk.Base.Tests.{ltb, if◌then◌else◌, Bool-cases}

module _ {ℓ} {A : Type ℓ} where
  abbrev pub length : List A → ℕ
  length [] = 0
  length (x ∷ xs) = suc (length xs)

  abbrev pub drop : ℕ → List A → List A
  drop zero xs = xs
  drop (suc n) [] = []
  drop (suc n) (x ∷ xs) = drop n xs

  abbrev pub take : ℕ → List A → List A
  take zero xs = []
  take (suc n) [] = []
  take (suc n) (x ∷ xs) = x ∷ take n xs

  abbrev pub reverse : List A → List A
  reverse [] = []
  reverse (x ∷ xs) = reverse xs ++ x ∷ []

  -- `if len(xs) > n { xs = xs[len(xs)-n:] }`: the last `n` members.
  pub last_of : ℕ → List A → List A
  last_of n xs = if ltb n (length xs) then drop (length xs - n) xs else xs

  pub length-append : (xs ys : List A) → length (xs ++ ys) ≡ length xs + length ys
  length-append [] ys = omega arith
  length-append (x ∷ xs) ys = omega (arith, length-append xs ys)

  pub length-drop : (n : ℕ) (xs : List A) → length (drop n xs) ≡ length xs - n
  length-drop zero xs = omega arith
  length-drop (suc n) [] = omega arith
  length-drop (suc n) (x ∷ xs) = omega (arith, length-drop n xs)

  pub drop-append : (n : ℕ) (xs ys : List A) → n ≤ length xs → drop n (xs ++ ys) ≡ drop n xs ++ ys
  drop-append zero xs ys h = refl
  drop-append (suc n) [] ys h = elim h [ ]
  drop-append (suc n) (x ∷ xs) ys h = drop-append n xs ys (omega arith)

  pub drop-nil : (n : ℕ) → drop n [] ≡ []
  drop-nil zero = refl
  drop-nil (suc n) = refl

  pub drop-drop : (m n : ℕ) (xs : List A) → drop m (drop n xs) ≡ drop (n + m) xs
  drop-drop m zero xs = let e : m ≡ 0 + m = omega arith in ap (λ k. drop k xs) e
  drop-drop m (suc n) [] = rw (drop-nil m, drop-nil (suc n + m))
  drop-drop m (suc n) (x ∷ xs) =
      let e : suc (n + m) ≡ suc n + m = omega arith in
      drop-drop m n xs ∙ ap (λ k. drop k (x ∷ xs)) e

  pub last_of-drop : (n : ℕ) (xs : List A) → last_of n xs ≡ drop (length xs - n) xs
  unfolding last_of
  last_of-drop n xs = elim (Bool-cases (ltb n (length xs))) [
    | inl long ↦ rw long
    | inr short ↦ let e : length xs - n ≡ 0 = ground arith in rw (short, e)
  ]

  -- What is kept of a longer list does not depend on what was cut before.
  pub last_of-append :
      (n : ℕ) (xs ys : List A) → last_of n (last_of n xs ++ ys) ≡ last_of n (xs ++ ys)
  last_of-append n xs ys =
      last_of n (last_of n xs ++ ys)
      ≡⟨ ap (λ zs. last_of n (zs ++ ys)) (last_of-drop n xs) ⟩ last_of n (drop cut xs ++ ys)
      ≡⟨ ap (last_of n) (sym (drop-append cut xs ys (omega arith))) ⟩
        last_of n (drop cut (xs ++ ys))
      ≡⟨ last_of-drop n (drop cut (xs ++ ys)) ⟩ drop more (drop cut (xs ++ ys))
      ≡⟨ drop-drop more cut (xs ++ ys) ⟩ drop (cut + more) (xs ++ ys)
      ≡⟨ ap (λ k. drop k (xs ++ ys)) total ⟩ drop (length (xs ++ ys) - n) (xs ++ ys)
      ≡⟨ sym (last_of-drop n (xs ++ ys)) ⟩ last_of n (xs ++ ys) ∎
    where
      cut : ℕ
      cut = length xs - n

      more : ℕ
      more = length (drop cut (xs ++ ys)) - n

      total : cut + more ≡ length (xs ++ ys) - n
      total = omega (arith, length-drop cut (xs ++ ys), length-append xs ys)

  pub length-last_of-le : (n : ℕ) (xs : List A) → length (last_of n xs) ≤ n
  unfolding last_of
  length-last_of-le n xs = ground (arith, length-drop (length xs - n) xs)

module _ {ℓ κ} {A : Type ℓ} where
  abbrev pub All : (A → Type κ) → List A → Type κ
  All P [] = Unit
  All P (x ∷ xs) = P x × All P xs

  pub All-append : (P : A → Type κ) (xs ys : List A) → All P xs → All P ys → All P (xs ++ ys)
  All-append P [] ys hx hy = hy
  All-append P (x ∷ xs) ys hx hy = (hx.0, All-append P xs ys hx.1 hy)
