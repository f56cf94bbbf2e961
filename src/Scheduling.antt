-- ===== src/Scheduling.antt =====
-- The availability of a professional: services/availability.py and services/business_hours.py,
-- with the queries of the repositories that they call.
pub mod Windows
pub mod Slots
pub mod Records
pub mod Availability
