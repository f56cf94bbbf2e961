-- ===== src/Orders.antt =====
-- The orders (comandas): services/orders.py and services/order_totals.py, with the parts of
-- services/appointments.py and services/cash_register.py that they call.
pub mod Records
pub mod Totals
pub mod Store
pub mod Registers
pub mod Lines
pub mod Lifecycle
pub mod Split
pub mod Correction
