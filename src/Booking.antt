-- ===== src/Booking.antt =====
-- Making appointments: services/appointments.py with the conflict checks of the repositories and of
-- the database.
pub mod Records
pub mod Snapshots
pub mod Creation
