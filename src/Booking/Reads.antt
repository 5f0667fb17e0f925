-- ===== src/Booking/Reads.antt =====
-- app/services/booking_service.py: finding one booking, and the rows that hang on it.
use appointment_voice_saas.Common.{ℕ, Option, Bool, ◌&&◌, ◌==◌, find_by, update_where}
use appointment_voice_saas.Tables.{Db, Booking, BookingPayment}
use appointment_voice_saas.Errors.{Result, ok, not_found, or_raise, require_that, ◌>>=◌, ◌>>◌}

abbrev pub is_booking : ℕ → ℕ → Booking → Bool
is_booking booking_id tenant_id b = b.id == booking_id && b.tenant_id == tenant_id

unfoldable pub get_booking : Db → ℕ → ℕ → Option Booking
get_booking db booking_id tenant_id = find_by (is_booking booking_id tenant_id) db.bookings

unfoldable pub require_booking : Db → ℕ → ℕ → Result Booking
unfolding get_booking
require_booking db booking_id tenant_id =
    or_raise (get_booking db booking_id tenant_id) (not_found "Booking not found")

-- Also `_require_booking_in_business_for_update`: its row lock and `populate_existing()` make the
-- row read the current one, which every read of the model is.
unfoldable pub require_booking_in_business : Db → ℕ → ℕ → ℕ → Result Booking
unfolding require_booking
require_booking_in_business db booking_id business_id tenant_id = do
  booking ← require_booking db booking_id tenant_id
  require_that (booking.business_id == business_id) (not_found "Booking not found")
  ok booking

-- db.query(BookingPayment).filter(booking_id == ..., tenant_id == ...).first()
unfoldable pub payment_of_booking : Db → ℕ → ℕ → Option BookingPayment
payment_of_booking db booking_id tenant_id =
    find_by (λ (p : BookingPayment). p.booking_id == booking_id && p.tenant_id == tenant_id)
      db.payments

-- UPDATE bookings SET ... WHERE id = ...
abbrev pub update_booking : ℕ → (Booking → Booking) → Db → Db
update_booking booking_id change db = record db {
  bookings = update_where (λ (b : Booking). b.id == booking_id) change db.bookings;
}

-- UPDATE booking_payments SET ... WHERE id = ...
abbrev pub update_payment : ℕ → (BookingPayment → BookingPayment) → Db → Db
update_payment payment_id change db = record db {
  payments = update_where (λ (p : BookingPayment). p.id == payment_id) change db.payments;
}
