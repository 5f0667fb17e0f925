-- ===== src/Voice.antt =====
-- app/services/ivr_service.py: phone calls, which walk through menus by the keys that are pressed.
pub mod Prompts
pub mod Responses
pub mod Queries
pub mod Steps
pub mod Menus
pub mod Choices
pub mod Calls
pub mod Moves
pub mod Runs
pub mod Endings
pub mod Silence
pub mod Sweep
pub mod Offers
pub mod Bookings
pub mod Slots
pub mod Manage
