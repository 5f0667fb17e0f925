-- ===== src/Tests.antt =====
-- A small salon on which the theorems are tried out.
pub mod Samples
pub mod Bookings
pub mod Outcomes
pub mod Slots
pub mod Queues
pub mod Workers
pub mod Voice
pub mod Requests
pub mod Customers
