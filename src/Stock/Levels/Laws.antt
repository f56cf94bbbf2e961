-- ===== src/Stock/Levels/Laws.antt =====
-- Reading a level after a write.
use nexasalon_api.Prelude.{ℕ, ◌≡◌, ◌&&◌, List, [], ◌∷◌, arith, ◌==◌, if◌then◌else◌}
use nexasalon_api.Stock.Records.{StockLevel}
use nexasalon_api.Stock.Levels.{quantity_of, lock_or_create, set_quantity}

pub quantity_of-lock_or_create :
    (p b p' b' : ℕ) (ls : List StockLevel)
    → quantity_of p' b' (lock_or_create p b ls) ≡ quantity_of p' b' ls
unfolding quantity_of lock_or_create
quantity_of-lock_or_create p b p' b' [] = ground arith
quantity_of-lock_or_create p b p' b' (l ∷ ls) =
    ground (arith, quantity_of-lock_or_create p b p' b' ls)

pub quantity_of-set_quantity :
    (p b p' b' q : ℕ) (ls : List StockLevel)
    → quantity_of p' b' (set_quantity p b q (lock_or_create p b ls))
      ≡ (if p == p' && b == b' then q else quantity_of p' b' ls)
unfolding quantity_of lock_or_create set_quantity
quantity_of-set_quantity p b p' b' q [] = ground arith
quantity_of-set_quantity p b p' b' q (l ∷ ls) =
    ground (arith, quantity_of-set_quantity p b p' b' q ls)
