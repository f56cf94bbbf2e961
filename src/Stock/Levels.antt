-- ===== src/Stock/Levels.antt =====
-- repositories/stock_level_repo.py: one row for a product in a branch, made on demand.
pub mod Laws
use nexasalon_api.Prelude.{
  ℕ, suc, leb, Bool, true, false, ◌&&◌, Option, none, some, List, [], ◌∷◌, ◌++◌, map, find, ◌==◌,
  if◌then◌else◌,
}
use nexasalon_api.Stock.Records.{StockLevel}

-- A quantity of `Numeric(12, 3)`: of a number of thousandths and `rest` millionths, the column keeps
-- the nearest thousandth, and the larger one in the middle.
abbrev pub rounded : ℕ → ℕ → ℕ
rounded quantity rest = if leb 500 rest then suc quantity else quantity

abbrev pub is_level : ℕ → ℕ → StockLevel → Bool
is_level product_id branch_id l = l.product_id == product_id && l.branch_id == branch_id

-- `get(...)`'s `quantity_on_hand`, and 0 where there is no row.
unfoldable pub quantity_of : ℕ → ℕ → List StockLevel → ℕ
quantity_of product_id branch_id [] = 0
quantity_of product_id branch_id (l ∷ ls) =
    if is_level product_id branch_id l
    then l.quantity_on_hand
    else quantity_of product_id branch_id ls

-- `lock_or_create`: the row is locked, or appended with a quantity of 0.
unfoldable pub lock_or_create : ℕ → ℕ → List StockLevel → List StockLevel
lock_or_create product_id branch_id [] =
    record { product_id = product_id; branch_id = branch_id; quantity_on_hand = 0 } ∷ []
lock_or_create product_id branch_id (l ∷ ls) =
    if is_level product_id branch_id l then l ∷ ls else l ∷ lock_or_create product_id branch_id ls

-- `level.quantity_on_hand = quantity` on the locked row.
unfoldable pub set_quantity : ℕ → ℕ → ℕ → List StockLevel → List StockLevel
set_quantity product_id branch_id quantity [] = []
set_quantity product_id branch_id quantity (l ∷ ls) =
    if is_level product_id branch_id l
    then record l { quantity_on_hand = quantity } ∷ ls
    else l ∷ set_quantity product_id branch_id quantity ls
