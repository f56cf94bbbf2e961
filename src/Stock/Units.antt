-- ===== src/Stock/Units.antt =====
-- core/units.py: conversion within the group of weights and within the group of volumes. The
-- factor of a unit is `none` outside the group. A quantity is in millionths here, so that `/` is
-- exact on what the schemas admit, at most three decimals.
pub mod RoundTrip
use nexasalon_api.Prelude.{
  ℕ, ◌*◌, ◌/◌, Bool, true, false, ◌||◌, Option, none, some, Result, ok, err, Error, validation,
  if◌then◌else◌,
}
use nexasalon_api.Stock.Records.{
  ProductUnit, unit, ml, liter, gram, kg, box, pack, meter, dose, pair,
}

pub data UnitGroup : Type 0 where
  weight volume : UnitGroup

-- `_WEIGHT_BASE_FACTORS` and `_VOLUME_BASE_FACTORS`
unfoldable pub base_factor : UnitGroup → ProductUnit → Option ℕ
base_factor weight gram = some 1
base_factor weight kg = some 1000
base_factor volume ml = some 1
base_factor volume liter = some 1000
base_factor _ _ = none

-- `_group_for`
unfoldable pub group_for : ProductUnit → Option UnitGroup
group_for gram = some weight
group_for kg = some weight
group_for ml = some volume
group_for liter = some volume
group_for _ = none

unfoldable pub is_convertible : ProductUnit → ProductUnit → Bool
unfolding group_for base_factor
is_convertible from_unit to_unit = elim (group_for from_unit) [
  | none ↦ false
  | some g ↦ elim (base_factor g to_unit) [ none ↦ false | some _ ↦ true ]
]

pub ProductUnit-discrete : Discrete ProductUnit
ProductUnit-discrete = hlevel

abbrev pub same_unit : ProductUnit → ProductUnit → Bool
unfolding ProductUnit-discrete
same_unit a b = elim (ProductUnit-discrete a b) [ yes _ ↦ true | no _ ↦ false ]

-- The last two lines of `convert_quantity`.
scale : ℕ → Option ℕ → Option ℕ → Result ℕ
scale value (some from_factor) (some to_factor) = ok (value * from_factor / to_factor)
scale value _ _ = err validation

-- `convert_quantity`; the `ValueError` of an incompatible pair of units is the validation error
-- that `resolve_quantity_in_product_unit` makes of it.
unfoldable pub convert_quantity : ℕ → ProductUnit → ProductUnit → Result ℕ
unfolding scale group_for base_factor
convert_quantity value from_unit to_unit =
    if same_unit from_unit to_unit then ok value else elim (group_for from_unit) [
      | none ↦ err validation
      | some g ↦ scale value (base_factor g from_unit) (base_factor g to_unit)
    ]
