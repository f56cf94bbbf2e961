-- ===== src/Stock/Units/RoundTrip.antt =====
-- Conversion there and back.
use nexasalon_api.Prelude.{ℕ, ap, ◌*◌, ◌≡◌, refl, true, ok, arith}
use nexasalon_api.Stock.Records.{ProductUnit, ml, liter, gram, kg}
use nexasalon_api.Stock.Units.{is_convertible, convert_quantity, ProductUnit-discrete}

-- How many of the smaller unit of its group a unit is.
abbrev pub grams_or_ml : ProductUnit → ℕ
grams_or_ml kg = 1000
grams_or_ml liter = 1000
grams_or_ml _ = 1

-- A quantity with at most three decimals converts between two units of one group; in the smaller
-- unit of the group the result is the same amount, and converting it back gives the quantity again.
pub convert_quantity-roundtrip :
    (thousandths : ℕ) (a b : ProductUnit)
    → is_convertible a b ≡ true
    → (v : ℕ) × (convert_quantity (thousandths * 1000) a b ≡ ok v)
      × (v * grams_or_ml b ≡ thousandths * 1000 * grams_or_ml a)
      × (convert_quantity v b a ≡ ok (thousandths * 1000))
unfolding convert_quantity is_convertible ProductUnit-discrete
convert_quantity-roundtrip n gram gram h = (n * 1000, refl, omega arith, refl)
convert_quantity-roundtrip n gram kg h = (n, ap ok (omega arith), omega arith, ap ok (omega arith))
convert_quantity-roundtrip n kg gram h =
    (n * 1000 * 1000, ap ok (omega arith), omega arith, ap ok (omega arith))
convert_quantity-roundtrip n kg kg h = (n * 1000, refl, omega arith, refl)
convert_quantity-roundtrip n ml ml h = (n * 1000, refl, omega arith, refl)
convert_quantity-roundtrip n ml liter h = (n, ap ok (omega arith), omega arith, ap ok (omega arith))
convert_quantity-roundtrip n liter ml h =
    (n * 1000 * 1000, ap ok (omega arith), omega arith, ap ok (omega arith))
convert_quantity-roundtrip n liter liter h = (n * 1000, refl, omega arith, refl)
convert_quantity-roundtrip n a b h = cc
