-- ===== src/Availability.antt =====
-- The slot search of app/services/availability_service.py.
pub mod Windows
pub mod Slots
pub mod Search
