-- ===== src/Booking/Outcome.antt =====
-- What the calls that return have done to the table of bookings.
pub mod Frames
pub mod Landing
pub mod Moves
pub mod Failures
