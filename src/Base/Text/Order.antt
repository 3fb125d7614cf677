-- ===== src/Base/Text/Order.antt =====
-- Go's `<` on strings: on valid UTF-8 the order of the bytes is that of the code points.
use Prim.Native.Char.{code}
use Prim.Native.String.{String}
use mathlib.Core.Path.{◌≡◌, refl, ap, ◌∙◌}
use mathlib.Core.Logic.{inl, inr}
use mathlib.Core.Bool.{Bool, true, false}
use native.Mathlib.Omega.{arith}
use text.Mathlib.TextEquality.{Char-path}
use auxitalk.Base.Tests.{ltb, ◌==◌, nat_eq, if◌then◌else◌, Bool-cases}

unfoldable pub less : String → String → Bool
less String.[] String.[] = false
less String.[] (String.◌∷◌ d t) = true
less (String.◌∷◌ c s) String.[] = false
less (String.◌∷◌ c s) (String.◌∷◌ d t) =
    if code c == code d then less s t else ltb (code c) (code d)

pub less_irrefl : (s : String) → less s s ≡ false
unfolding less
less_irrefl String.[] = refl
less_irrefl (String.◌∷◌ c s) = ground (arith, less_irrefl s)

pub less_trans : (s t u : String) → less s t ≡ true → less t u ≡ true → less s u ≡ true
unfolding less
less_trans String.[] String.[] u h k = absurd (cc)
less_trans String.[] (String.◌∷◌ d t) String.[] h k = absurd (cc)
less_trans String.[] (String.◌∷◌ d t) (String.◌∷◌ e u) h k = refl
less_trans (String.◌∷◌ c s) String.[] u h k = absurd (cc)
less_trans (String.◌∷◌ c s) (String.◌∷◌ d t) String.[] h k = absurd (cc)
less_trans (String.◌∷◌ c s) (String.◌∷◌ d t) (String.◌∷◌ e u) h k = ground (arith, less_trans s t u)

-- Of two texts that differ one is less.
pub less_total : (s t : String) → less s t ≡ false → less t s ≡ false → s ≡ t
unfolding less
less_total String.[] String.[] h k = refl
less_total String.[] (String.◌∷◌ d t) h k = absurd (cc)
less_total (String.◌∷◌ c s) String.[] h k = absurd (cc)
less_total (String.◌∷◌ c s) (String.◌∷◌ d t) h k = elim (Bool-cases (code c == code d)) [
  | inl e ↦
      let same : code c ≡ code d = ground arith in
      let tails : s ≡ t = less_total s t (rw e at h) (ground arith) in
      ap (λ x. String.◌∷◌ x s) (Char-path c d same) ∙ ap (λ x. String.◌∷◌ d x) tails
  | inr n ↦ absurd (ground arith)
]
