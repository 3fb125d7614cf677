-- ===== src/Base/Text.antt =====
-- Go strings as native texts: concatenation, `strings.TrimSpace`, `strings.ReplaceAll` and the
-- tests for prefix, suffix and substring. Texts are valid UTF-8.
pub mod Order
use Prim.Native.Char.{Char, code}
use Prim.Native.Nat.{ℕ, zero, suc, ◌-◌}
use Prim.Native.String
use Prim.Native.String.{String, count}
use mathlib.Core.Path.{◌≡◌, refl, sym, ◌∙◌}
use mathlib.Core.Logic.{inl, inr}
use mathlib.Core.HLevel.{hedberg}
use mathlib.Core.Bool.{false≢true, Bool, true, false, ◌&&◌, ◌||◌}
use mathlib.Core.Option.{Option, none, some}
use mathlib.Core.List.{List}
use native.Mathlib.Omega.{arith}
use text.Mathlib.TextEquality.{eq_iff}
use text.Mathlib.TextLemmas.{cons-ne-nil, nil-append, cons-append}
use auxitalk.Base.Tests.{leb, ◌==◌, nat_eq, string_eq, if◌then◌else◌, Bool-cases}

-- "a" + b + …, and `fmt.Sprintf` on texts.
unfoldable pub concat : List String → String
concat List.[] = ""
concat (List.◌∷◌ s r) = String.◌++◌ s (concat r)

-- unicode.IsSpace
unfoldable pub is_space : ℕ → Bool
is_space c =
    (leb 9 c && leb c 13)
    || c == 32
    || c == 0x85
    || c == 0xa0
    || c == 0x1680
    || (leb 0x2000 c && leb c 0x200a)
    || c == 0x2028
    || c == 0x2029
    || c == 0x202f
    || c == 0x205f
    || c == 0x3000

unfoldable pub trim_left : String → String
trim_left String.[] = ""
trim_left (String.◌∷◌ c s) = if is_space (code c) then trim_left s else String.◌∷◌ c s

unfoldable pub trim_right : String → String
trim_right String.[] = ""
trim_right (String.◌∷◌ c s) =
    let rest = trim_right s in if is_space (code c) && rest == "" then "" else String.◌∷◌ c rest

-- strings.TrimSpace
unfoldable pub trim_space : String → String
trim_space s = trim_right (trim_left s)

-- strings.TrimSpace(s) == ""
unfoldable pub is_blank : String → Bool
is_blank s = trim_space s == ""

unfoldable pub all_space : String → Bool
all_space String.[] = true
all_space (String.◌∷◌ c s) = is_space (code c) && all_space s

all_space-trim_left : (s : String) → all_space (trim_left s) ≡ all_space s
unfolding all_space trim_left
all_space-trim_left String.[] = refl
all_space-trim_left (String.◌∷◌ c s) = ground (arith, all_space-trim_left s)

cons-eq-nil_false : (c : Char) (s : String) → (String.◌∷◌ c s == "") ≡ false
cons-eq-nil_false c s = ground (arith, eq_iff (String.◌∷◌ c s) "", cons-ne-nil c s)

trim_right-eq-nil : (s : String) → (trim_right s == "") ≡ all_space s
unfolding all_space trim_right
trim_right-eq-nil String.[] = refl
trim_right-eq-nil (String.◌∷◌ c s) = elim (Bool-cases (is_space (code c))) [
  | inl sp ↦ elim (Bool-cases (trim_right s == "")) [
    | inl e ↦ rw (sp, e) (sym (sym (trim_right-eq-nil s) ∙ e))
    | inr e ↦ rw (sp, e, cons-eq-nil_false c (trim_right s)) (sym (sym (trim_right-eq-nil s) ∙ e))
  ]
  | inr ns ↦ rw (ns, cons-eq-nil_false c (trim_right s))
]

-- A text is blank exactly when each of its characters is a space.
pub is_blank-all_space : (s : String) → is_blank s ≡ all_space s
unfolding is_blank trim_space
is_blank-all_space s = trim_right-eq-nil (trim_left s) ∙ all_space-trim_left s

-- What is left of `s` behind the prefix `p`.
unfoldable pub strip_prefix : String → String → Option String
strip_prefix String.[] s = some s
strip_prefix (String.◌∷◌ c p) String.[] = none
strip_prefix (String.◌∷◌ c p) (String.◌∷◌ d s) = if code c == code d then strip_prefix p s else none

-- strings.HasPrefix(s, p)
unfoldable pub has_prefix : String → String → Bool
has_prefix s p = elim (strip_prefix p s) [ none ↦ false | some _ ↦ true ]

-- strings.TrimPrefix(s, p)
unfoldable pub trim_prefix : String → String → String
trim_prefix s p = elim (strip_prefix p s) [ none ↦ s | some r ↦ r ]

-- strings.Contains(s, t)
unfoldable pub contains : String → String → Bool
contains String.[] t = t == ""
contains (String.◌∷◌ c s) t = if has_prefix (String.◌∷◌ c s) t then true else contains s t

-- strings.HasSuffix(s, t)
unfoldable pub has_suffix : String → String → Bool
has_suffix String.[] t = t == ""
has_suffix (String.◌∷◌ c s) t = if String.◌∷◌ c s == t then true else has_suffix s t

-- strings.ReplaceAll(s, old, new) for an `old` that is not empty: leftmost occurrences that do not
-- overlap. `skip` counts the characters of an occurrence that are still to be passed over.
unfoldable pub replace_from : String → String → ℕ → String → String
replace_from old new skip String.[] = ""
replace_from old new (suc skip) (String.◌∷◌ c s) = replace_from old new skip s
replace_from old new zero (String.◌∷◌ c s) = elim (strip_prefix old (String.◌∷◌ c s)) [
  | some _ ↦ String.◌++◌ new (replace_from old new (count old - 1) s)
  | none ↦ String.◌∷◌ c (replace_from old new zero s)
]

unfoldable pub replace_all : String → String → String → String
replace_all s old new = replace_from old new zero s

-- strings.SplitN(s, ".", 2): what stands before the first dot, and what behind it.
unfoldable pub split_dot : String → String × Option String
split_dot String.[] = ("", none)
split_dot (String.◌∷◌ c s) =
    if code c == b'.' then ("", some s) else (let (a, r) = split_dot s in (String.◌∷◌ c a, r))

pub String-discrete : Discrete String
String-discrete s t = elim (Bool-cases (s == t)) [
  | inl e ↦ yes ((eq_iff s t).0 e)
  | inr n ↦ no (λ p. false≢true (sym n ∙ (eq_iff s t).1 p))
]

pub String-set : IsSet String
String-set = hedberg String-discrete

all_space-append : (s t : String) → all_space (String.◌++◌ s t) ≡ (all_space s && all_space t)
unfolding all_space
all_space-append String.[] t = rw (nil-append t)
all_space-append (String.◌∷◌ c s) t = rw (cons-append c s t) (ground (arith, all_space-append s t))

-- A text that begins with one that is not blank is not blank.
pub is_blank-concat :
    (s : String) (r : List String) → all_space s ≡ false → is_blank (concat (List.◌∷◌ s r)) ≡ false
unfolding concat
is_blank-concat s r h =
    is_blank-all_space (String.◌++◌ s (concat r)) ∙ all_space-append s (concat r) ∙ (rw h)
