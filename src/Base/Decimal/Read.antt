-- ===== src/Base/Decimal/Read.antt =====
-- Reading the number at the end of a text, to tell apart texts that end in different numbers.
use Prim.Native.Char.{code}
use Prim.Native.Nat.{ℕ, zero, suc, ◌+◌, ◌-◌, ◌*◌, ◌/◌, ◌%◌, ◌^◌, ◌<◌}
use Prim.Native.String
use Prim.Native.String.{String}
use mathlib.Core.Path.{◌≡◌, sym, ap, ◌∙◌}
use mathlib.Core.Logic.{inl, inr}
use mathlib.Core.Bool.{Bool, ◌&&◌}
use native.Mathlib.Omega.{arith}
use text.Mathlib.TextLemmas.{nil-append, cons-append}
use auxitalk.Base.Tests.{leb, ltb, if◌then◌else◌, Bool-cases}
use auxitalk.Base.Decimal.{decimal, digits, digit}

is_digit : ℕ → Bool
is_digit c = leb 48 c && leb c 57

-- The number in the digits at the end of the text; `n` is what has been read before it.
read_from : ℕ → String → ℕ
read_from n String.[] = n
read_from n (String.◌∷◌ c s) = read_from (if is_digit (code c) then n * 10 + (code c - 48) else 0) s

read_from-append :
    (n : ℕ) (s t : String) → read_from n (String.◌++◌ s t) ≡ read_from (read_from n s) t
unfolding read_from
read_from-append n String.[] t = rw (nil-append t)
read_from-append n (String.◌∷◌ c s) t =
    rw (cons-append c s t)
      (read_from-append (if is_digit (code c) then n * 10 + (code c - 48) else 0) s t)

read_from-digit : (n d : ℕ) → d < 10 → read_from n (digit d) ≡ n * 10 + d
unfolding read_from digit is_digit
read_from-digit n zero h = omega arith
read_from-digit n (suc zero) h = omega arith
read_from-digit n (suc (suc zero)) h = omega arith
read_from-digit n (suc (suc (suc zero))) h = omega arith
read_from-digit n (suc (suc (suc (suc zero)))) h = omega arith
read_from-digit n (suc (suc (suc (suc (suc zero))))) h = omega arith
read_from-digit n (suc (suc (suc (suc (suc (suc zero)))))) h = omega arith
read_from-digit n (suc (suc (suc (suc (suc (suc (suc zero))))))) h = omega arith
read_from-digit n (suc (suc (suc (suc (suc (suc (suc (suc zero)))))))) h = omega arith
read_from-digit n (suc (suc (suc (suc (suc (suc (suc (suc (suc zero))))))))) h = omega arith
read_from-digit n (suc (suc (suc (suc (suc (suc (suc (suc (suc (suc d)))))))))) h =
    absurd (omega arith)

read_from-digits : (fuel n : ℕ) → n < 10 ^ fuel → read_from 0 (digits fuel n) ≡ n
unfolding digits read_from
read_from-digits zero n h = omega arith
read_from-digits (suc fuel) n h = elim (Bool-cases (ltb n 10)) [
  | inl one ↦ rw one (read_from-digit 0 n (ground arith) ∙ omega arith)
  | inr more ↦ rw more (
      read_from-append 0 (digits fuel (n / 10)) (digit (n % 10))
      ∙ read_from-digit (read_from 0 (digits fuel (n / 10))) (n % 10) (omega arith)
      ∙ omega (arith, read_from-digits fuel (n / 10) (less fuel n h)))
]
  where
    less : (f m : ℕ) → m < 10 ^ suc f → m / 10 < 10 ^ f
    less f m p = omega arith

read_from-decimal : (n : ℕ) → n < 2 ^ 64 → read_from 0 (decimal n) ≡ n
unfolding decimal
read_from-decimal n h = read_from-digits 20 n (omega arith)

-- Texts that end in a character that is no digit and then in a 64-bit number each are the same only
-- if the numbers are.
pub decimal-injective_tail :
    (s t : String) (n m : ℕ)
    → n < 2 ^ 64
    → m < 2 ^ 64
    → String.◌++◌ s (String.◌++◌ "-" (decimal n)) ≡ String.◌++◌ t (String.◌++◌ "-" (decimal m))
    → n ≡ m
unfolding read_from is_digit
decimal-injective_tail s t n m hn hm p = sym (ends s n hn) ∙ ap (read_from 0) p ∙ ends t m hm
  where
    ends :
        (u : String) (k : ℕ)
        → k < 2 ^ 64
        → read_from 0 (String.◌++◌ u (String.◌++◌ "-" (decimal k))) ≡ k
    ends u k h =
        read_from-append 0 u (String.◌++◌ "-" (decimal k))
        ∙ read_from-append (read_from 0 u) "-" (decimal k)
        ∙ read_from-decimal k h
