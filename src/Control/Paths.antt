-- ===== src/Control/Paths.antt =====
-- Paths cut at their slashes, and prefixes.
use Prim.Native.Char.{Char, code}
use Prim.Native.String
use text.Mathlib.TextEquality.{Char-path}
use text.Mathlib.TextLemmas.{nil-append, cons-append}
use auxitalk.Base.{
  String, Bool, false, ◌||◌, List, [], ◌∷◌, some, ◌≡◌, refl, sym, ap, ◌∙◌, inl, inr, arith, ◌==◌,
  nat_eq, string_eq, All, Bool-cases,
}
use auxitalk.Base.Text.{strip_prefix}
use auxitalk.Control.{split_slash, two_parts}

-- whether a text contains a slash
unfoldable pub has_slash : String → Bool
has_slash String.[] = false
has_slash (String.◌∷◌ c s) = code c == 47 || has_slash s

free-cons :
    (c : Char) (a : String)
    → has_slash (String.◌∷◌ c a) ≡ false
    → ((code c == 47) ≡ false) × (has_slash a ≡ false)
unfolding has_slash
free-cons c a h = ground arith

slash-append : (s : String) → String.◌++◌ "/" s ≡ String.◌∷◌ "/" s
slash-append s = cons-append "/" "" s ∙ ap (String.◌∷◌ "/") (nil-append s)

pub strip_prefix-append : (p s : String) → strip_prefix p (String.◌++◌ p s) ≡ some s
unfolding strip_prefix
strip_prefix-append String.[] s = ap some (nil-append s)
strip_prefix-append (String.◌∷◌ c p) s =
    rw (cons-append c p s) (ground (arith, strip_prefix-append p s))

-- What is left behind a prefix gives the text back.
pub append-strip_prefix : (p s r : String) → strip_prefix p s ≡ some r → s ≡ String.◌++◌ p r
unfolding strip_prefix
append-strip_prefix String.[] s r e = ground (arith, nil-append r)
append-strip_prefix (String.◌∷◌ c p) String.[] r e = ground arith
append-strip_prefix (String.◌∷◌ c p) (String.◌∷◌ d s) r e = elim (Bool-cases (code c == code d)) [
  | inl y ↦
      (let k : strip_prefix p s ≡ some r = ground arith in
        let q : c ≡ d = Char-path c d (ground arith) in
        rw (cons-append c p r, q) (ap (String.◌∷◌ d) (append-strip_prefix p s r k)))
  | inr n ↦ ground arith
]

-- A text without a slash is a part of its own; one in front of a slash is the first part.
split_slash-free : (a : String) → has_slash a ≡ false → split_slash a ≡ a ∷ []
unfolding split_slash has_slash
split_slash-free String.[] h = refl
split_slash-free (String.◌∷◌ c a) h =
    let (n, k) = free-cons c a h in rw (n, split_slash-free a k) refl

split_slash-slashed :
    (a s : String)
    → has_slash a ≡ false
    → split_slash (String.◌++◌ a (String.◌++◌ "/" s)) ≡ a ∷ split_slash s
unfolding split_slash has_slash
split_slash-slashed String.[] s h = rw (nil-append (String.◌++◌ "/" s), slash-append s) refl
split_slash-slashed (String.◌∷◌ c a) s h =
    let (n, k) = free-cons c a h in
    rw (cons-append c a (String.◌++◌ "/" s), n, split_slash-slashed a s k) refl

-- The parts joined by slashes again.
join_slash : List String → String
join_slash [] = ""
join_slash (a ∷ []) = a
join_slash (a ∷ (b ∷ parts)) = String.◌++◌ a (String.◌++◌ "/" (join_slash (b ∷ parts)))

-- A cut path has parts without slashes that give it back.
data Cuts (s : String) : List String → Type 0 where
  cuts :
      {a : String} {parts : List String}
      → has_slash a ≡ false
      → All (λ b. has_slash b ≡ false) parts
      → join_slash (a ∷ parts) ≡ s
      → Cuts s (a ∷ parts)

at_slash :
    (c : Char) (s : String) {parts : List String}
    → c ≡ "/"
    → Cuts s parts
    → Cuts (String.◌∷◌ c s) ("" ∷ parts)
unfolding join_slash has_slash
at_slash c s k (cuts {a} {parts = ps} f free j) =
    cuts refl (f, free)
      (nil-append (String.◌++◌ "/" (join_slash (a ∷ ps)))
        ∙ slash-append (join_slash (a ∷ ps))
        ∙ ap (String.◌∷◌ "/") j
        ∙ ap (λ d. String.◌∷◌ d s) (sym k))

join_slash-cons :
    (c : Char) (a : String) (ps : List String)
    → join_slash (String.◌∷◌ c a ∷ ps) ≡ String.◌∷◌ c (join_slash (a ∷ ps))
unfolding join_slash
join_slash-cons c a [] = refl
join_slash-cons c a (p ∷ ps) = cons-append c a (String.◌++◌ "/" (join_slash (p ∷ ps)))

at_other :
    (c : Char) (s : String) {parts : List String}
    → (code c == 47) ≡ false
    → Cuts s parts
    → Cuts
        (String.◌∷◌ c s)
        (elim parts [ [] ↦ String.◌∷◌ c "" ∷ [] | p ∷ ps ↦ String.◌∷◌ c p ∷ ps ])
unfolding has_slash
at_other c s n (cuts {a} {parts = ps} f free j) =
    cuts (rw (n, f) refl) free (join_slash-cons c a ps ∙ ap (String.◌∷◌ c) j)

split_slash-Cuts : (s : String) → Cuts s (split_slash s)
unfolding split_slash has_slash join_slash
split_slash-Cuts String.[] = cuts refl tt refl
split_slash-Cuts (String.◌∷◌ c s) = elim (Bool-cases (code c == 47)) [
  | inl y ↦
      rw (y, split_slash) (at_slash c s (Char-path c "/" (ground (arith, y))) (split_slash-Cuts s))
  | inr n ↦ rw (n, split_slash) (at_other c s n (split_slash-Cuts s))
]

two_of :
    (s a b : String) (parts : List String)
    → two_parts parts ≡ some (a, b)
    → Cuts s parts
    → (s ≡ String.◌++◌ a (String.◌++◌ "/" b)) × (has_slash a ≡ false)
unfolding two_parts join_slash
two_of s a b [] e k = ground arith
two_of s a b (p ∷ []) e k = ground arith
two_of s a b (p ∷ (q ∷ [])) e (cuts f free j) =
    let same : (p ≡ a) × (q ≡ b) = ground arith in (rw⁻¹ (same.0, same.1) (sym j), rw⁻¹ (same.0) f)
two_of s a b (p ∷ (q ∷ (r ∷ ps))) e k = ground arith

-- A text has the two parts `a` and `b` only if it is both around a slash, and `a` has none.
pub two_parts-slash :
    (s a b : String)
    → two_parts (split_slash s) ≡ some (a, b)
    → (s ≡ String.◌++◌ a (String.◌++◌ "/" b)) × (has_slash a ≡ false)
two_parts-slash s a b e = two_of s a b (split_slash s) e (split_slash-Cuts s)

pub slash-two_parts :
    (a b : String)
    → has_slash a ≡ false
    → has_slash b ≡ false
    → two_parts (split_slash (String.◌++◌ a (String.◌++◌ "/" b))) ≡ some (a, b)
unfolding two_parts
slash-two_parts a b h k = rw (split_slash-slashed a b h, split_slash-free b k) refl
