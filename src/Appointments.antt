-- ===== src/Appointments.antt =====
-- The appointments' part: the status machine of services/appointment_state_machine.py.
pub mod Status
pub mod History
