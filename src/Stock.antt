-- ===== src/Stock.antt =====
-- The stock: services/stock.py, services/inventory_counts.py and core/units.py, over the tables of
-- models/stock.py and models/product.py.
pub mod Records
pub mod Units
pub mod Levels
pub mod Movements
pub mod Counts
