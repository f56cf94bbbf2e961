-- ===== src/Payments/Commissions.antt =====
-- `resolve_commission` of services/commissions.py. The links between professionals and services are
-- those of one organization, and prices are not negative (`price >= 0` in the table).
use nexasalon_api.Prelude.{
  ℕ, ◌*◌, ◌≤◌, ◌≡◌, Bool, false, not, ◌&&◌, Option, none, some, List, find, ◌==◌, if◌then◌else◌,
  arith, refl,
}
use nexasalon_api.Payments.Cents.{quantize, percent_of, quantize_le, quantize_exact}

pub data CommissionType : Type 0 where
  percentage fixed : CommissionType

pub data CommissionStatus : Type 0 where
  calculated not_configured : CommissionStatus

-- A commission value has two decimals: hundredths of a percent, or cents.
pub record ProfessionalService : Type 0 where
  pub professional_id : ℕ
  pub service_id : ℕ
  pub is_active : Bool
  pub commission_type : Option CommissionType
  pub commission_value : ℕ

pub record CommissionResolution : Type 0 where
  pub commission_type_snapshot : Option CommissionType
  pub commission_value_snapshot : Option ℕ
  pub commission_amount_snapshot : Option ℕ
  pub commission_status : CommissionStatus

-- `professional_service_repo.get_for_pair`
unfoldable pub get_for_pair : ℕ → ℕ → List ProfessionalService → Option ProfessionalService
get_for_pair professional_id service_id links =
    find (λ l. l.professional_id == professional_id && l.service_id == service_id) links

abbrev pub no_commission : CommissionResolution
no_commission = record {
  commission_type_snapshot = none;
  commission_value_snapshot = none;
  commission_amount_snapshot = none;
  commission_status = not_configured;
}

unfoldable pub commission_amount : CommissionType → ℕ → ℕ → ℕ
commission_amount percentage value price = percent_of value price
commission_amount fixed value price = if price == 0 then 0 else quantize (value * 10000)

unfoldable pub resolve_commission : List ProfessionalService → ℕ → ℕ → ℕ → CommissionResolution
resolve_commission links professional_id service_id price =
    elim (get_for_pair professional_id service_id links) [
      | none ↦ no_commission
      | some link ↦ if not link.is_active then no_commission else elim link.commission_type [
        | none ↦ no_commission
        | some kind ↦ record {
          commission_type_snapshot = some kind;
          commission_value_snapshot = some link.commission_value;
          commission_amount_snapshot = some (commission_amount kind link.commission_value price);
          commission_status = calculated;
        }
      ]
    ]

nothing : (value : ℕ) → percent_of value 0 ≡ 0
nothing value = rw (zero_mul value) (quantize_exact 0)
  where
    zero_mul : (v : ℕ) → 0 * v ≡ 0
    zero_mul v = omega arith

-- A service sold for nothing pays no commission of either kind; a percentage of at most 100% pays
-- at most the price, and a fixed value pays exactly itself on any positive price.
commission_amount-bounded :
    (value price : ℕ)
    → ((kind : CommissionType) → commission_amount kind value 0 ≡ 0)
      × (value ≤ 10000 → commission_amount percentage value price ≤ price)
      × ((price == 0) ≡ false → commission_amount fixed value price ≡ value)
unfolding commission_amount
commission_amount-bounded value price = (
  λ kind. elim kind as (λ k. commission_amount k value 0 ≡ 0) [
    | percentage ↦ nothing value
    | fixed ↦ refl
  ],
  λ h. quantize_le (price * value) price (grind arith),
  λ h. rw h (quantize_exact value),
)
