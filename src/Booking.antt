-- ===== src/Booking.antt =====
-- app/services/booking_service.py.
pub mod Overlap
pub mod Atomicity
pub mod Reads
pub mod Lists
pub mod LineItems
pub mod Create
pub mod Payment
pub mod Cancel
pub mod Reschedule
pub mod Calls
pub mod Invariance
pub mod Exclusivity
pub mod History
pub mod Outcome
