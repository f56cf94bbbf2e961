-- ===== src/Tests.antt =====
-- Concrete runs: each theorem with a hypothesis, applied where it holds.
mod Appointments
mod Scheduling
mod Stock
mod Money
mod Orders
mod Access
mod Booking
mod Settlements
