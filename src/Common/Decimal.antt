-- ===== src/Common/Decimal.antt =====
-- Decimal digits are read back, so a number is determined by its digits.
use Prim.Native.Nat.{ℕ, zero, suc, ◌+◌, ◌-◌, ◌*◌, ◌/◌, ◌%◌, ◌<◌, ◌≤◌}
use mathlib.Core.Bool.{true, false}
use mathlib.Core.List.{[], ◌∷◌, ◌++◌}
use mathlib.Core.Logic.{inl, inr}
use mathlib.Core.Path.{◌≡◌, refl, sym, ap, ◌∙◌}
use native.Mathlib.Omega.{arith}
use sagedockhand.Common.Tests.{ltb, Bool-cases}
use sagedockhand.Common.Lists.{drop, All, All-append, span, span_append}
use sagedockhand.Common.Text.{Text, is_digit, digits, to_decimal}

-- `parseInt` of digits
abbrev pub digits_value : ℕ → Text → ℕ
digits_value so_far [] = so_far
digits_value so_far (c ∷ s) = digits_value (so_far * 10 + (c - b'0')) s

digits_value-append :
    (a : ℕ) (s t : Text) → digits_value a (s ++ t) ≡ digits_value (digits_value a s) t
digits_value-append a [] t = refl
digits_value-append a (c ∷ s) t = digits_value-append (a * 10 + (c - b'0')) s t

digits_value-digits : (fuel n : ℕ) → n < fuel → digits_value 0 (digits fuel n) ≡ n
unfolding digits
digits_value-digits zero n h = absurd (omega arith)
digits_value-digits (suc fuel) n h = elim (Bool-cases (ltb n 10)) [
  | inl small ↦ rw small (omega arith)
  | inr large ↦
      let big : 10 ≤ n = ground (arith, large) in
      rw
        (
          large,
          digits_value-append 0 (digits fuel (n / 10)) ((b'0' + n % 10) ∷ []),
          digits_value-digits fuel (n / 10) (omega (arith, h, big)),
        )
        (omega arith)
]

pub digits_value-to_decimal : (n : ℕ) → digits_value 0 (to_decimal n) ≡ n
unfolding to_decimal
digits_value-to_decimal n = digits_value-digits (suc n) n (omega arith)

-- Different numbers have different digits.
pub to_decimal_inj : (m n : ℕ) → to_decimal m ≡ to_decimal n → m ≡ n
to_decimal_inj m n e =
    sym (digits_value-to_decimal m) ∙ (ap (digits_value 0) e ∙ digits_value-to_decimal n)

digits-All : (fuel n : ℕ) → All (λ c. is_digit c ≡ true) (digits fuel n)
unfolding digits
digits-All zero n = tt
digits-All (suc fuel) n = elim (Bool-cases (ltb n 10)) [
  | inl small ↦ rw small (ground arith, tt)
  | inr large ↦ rw large (
      All-append (λ c. is_digit c ≡ true) (digits fuel (n / 10)) ((b'0' + n % 10) ∷ [])
        (digits-All fuel (n / 10)) (ground arith, tt))
]

pub to_decimal-All : (n : ℕ) → All (λ c. is_digit c ≡ true) (to_decimal n)
unfolding to_decimal
to_decimal-All n = digits-All (suc n) n

-- A number, another code unit than a digit, and a text: each is determined by the whole.
pub numbered_inj :
    (c m n : ℕ) (s t : Text)
    → is_digit c ≡ false
    → to_decimal m ++ c ∷ s ≡ to_decimal n ++ c ∷ t
    → (m ≡ n) × (s ≡ t)
numbered_inj c m n s t h e =
    let cut = λ (k : ℕ) (u : Text). span_append is_digit (to_decimal k) c u (to_decimal-All k) h in
    let whole : (to_decimal m, c ∷ s) ≡ (to_decimal n, c ∷ t) =
      sym (cut m s) ∙ (ap (span is_digit) e ∙ cut n t) in
    (
      to_decimal_inj m n (ap (λ (p : Text × Text). p.0) whole),
      ap (λ (p : Text × Text). drop 1 p.1) whole,
    )
