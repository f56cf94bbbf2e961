-- ===== src/Payments/Cents.antt =====
-- Money: whole cents, `quantize(Decimal("0.01"))` and a difference that may be negative.
use nexasalon_api.Prelude.{
  ℕ, ◌+◌, ◌-◌, ◌*◌, ◌/◌, ◌%◌, ◌≤◌, ◌≡◌, arith, ltb, leb, ◌==◌, if◌then◌else◌,
}

pub data ℤ : Type 0 where
  pos : ℕ → ℤ
  negsuc : ℕ → ℤ

infixl 60 ◌⊖◌
-- `a - b` on `Decimal`s that are not negative.
unfoldable pub ◌⊖◌ : ℕ → ℕ → ℤ
a ⊖ b = if leb b a then pos (a - b) else negsuc (b - a - 1)

-- A number of ten-thousandths of a cent as cents, to the nearest, and to the even one in the
-- middle (the default context of `decimal`).
unfoldable pub quantize : ℕ → ℕ
quantize n =
    let cents = n / 10000 in
    let rest = n % 10000 in
    if ltb rest 5000
    then cents
    else if ltb 5000 rest
    then cents + 1
    else if cents % 2 == 0
    then cents
    else cents + 1

-- A percentage in hundredths of a percent.
abbrev pub percent_of : ℕ → ℕ → ℕ
percent_of percent amount = quantize (amount * percent)

pub quantize_near : (n : ℕ) → (quantize n * 10000 ≤ n + 5000) × (n ≤ quantize n * 10000 + 5000)
unfolding quantize
quantize_near n = ground arith

-- Rounding of a whole number of cents, and below one.
pub quantize_exact : (n : ℕ) → quantize (n * 10000) ≡ n
unfolding quantize
quantize_exact n = ground arith

pub quantize_le : (n k : ℕ) → n ≤ k * 10000 → quantize n ≤ k
unfolding quantize
quantize_le n k h = ground arith
