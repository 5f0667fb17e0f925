-- ===== src/Booking/LineItems.antt =====
-- app/services/booking_service.py: `add_booking_line_item`.
use appointment_voice_saas.Common.{ℕ, ◌==◌}
use appointment_voice_saas.Tables.{BookingLineItem}
use appointment_voice_saas.Errors.{not_found, require_that}
use appointment_voice_saas.Lookups.{require_service}
use appointment_voice_saas.Session.{
  Action, pure, read, query, modify, fresh_id, commit, ◌>>=◌, ◌>>◌,
}
use appointment_voice_saas.Booking.Reads.{require_booking}
use appointment_voice_saas.Booking.Lists.{add_line_item, count_line_items}

unfoldable pub add_booking_line_item : ℕ → ℕ → ℕ → Action BookingLineItem
unfolding count_line_items
add_booking_line_item booking_id tenant_id service_id = do
  booking ← read (λ db. require_booking db booking_id tenant_id)
  svc ← read (λ db. require_service db service_id tenant_id)
  read (λ _. require_that (svc.business_id == booking.business_id) (not_found "Service not found"))
  next_position ← query (count_line_items booking_id)
  id ← fresh_id
  let line_item : BookingLineItem = record {
    id = id;
    tenant_id = tenant_id;
    business_id = booking.business_id;
    booking_id = booking_id;
    service_id = service_id;
    position = next_position;
    duration_minutes = svc.duration_minutes;
  }
  modify (add_line_item line_item)
  commit
  pure line_item
