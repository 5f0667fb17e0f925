-- ===== src/Tests/Outcomes.antt =====
-- The theorems on what calls leave behind, in the salon.
use appointment_voice_saas.Booking.Create.{create_booking, write_booking, new_booking}
use appointment_voice_saas.Booking.Cancel.{
  cancel_booking, write_cancellation, offer_first, cancel_row,
}
use appointment_voice_saas.Outbox.{
  enqueue_booking_confirmation, enqueue_booking_cancellation, insert_intent, enqueue_waitlist_offer,
  enqueue_all, enqueue_send_notification_job,
}
use appointment_voice_saas.Calendar.{
  enqueue_calendar_event, get_calendar_integration, integration_of, enqueue_sync_calendar_event_job,
  get_calendar_event_for_booking, enqueue_cancel_calendar_event_job,
}
use appointment_voice_saas.Lookups.{
  require_business, require_service_in_business, require_customer_in_business,
  require_staff_in_business,
}
use appointment_voice_saas.Booking.Overlap.{insert_booking, check_double_booking}
use appointment_voice_saas.Audit.{create_audit_log}
use appointment_voice_saas.Session.{catch_overlap, ◌>>=◌}
use appointment_voice_saas.Waitlist.{find_matching_waitlist_entries}
use appointment_voice_saas.Booking.Payment.{fail_linked_pending_payment}
use appointment_voice_saas.Booking.Reads.{require_booking_in_business}
use appointment_voice_saas.Booking.Reschedule.{reschedule_booking, rescheduled_request}
use appointment_voice_saas.Common.{◌≢◌, ℕ, none, some, [], ◌∷◌, false, ◌≡◌, refl, String}
use appointment_voice_saas.Tables.{Booking, BookingStatus}
use appointment_voice_saas.Errors.{
  redis_error, ok, err, conflict, integrity_error, no_overlapping_staff_bookings,
}
use appointment_voice_saas.Env.{Env}
use appointment_voice_saas.Booking.Outcome.Moves.{
  cancel_booking-cancelled_in, reschedule_booking-MovedTo, MovedTo,
}
use appointment_voice_saas.Booking.Outcome.Failures.{reschedule_booking_half, create_booking_race}
use appointment_voice_saas.Tests.Samples.{
  env, session, bob_asks, at, ten_o_clock, one_o_clock, salon, bob, haircut, tables,
}

ten_cancelled :
    (cancel_booking env 1 1 1 (some "ill") none false session).0
    ≡ ok (cancel_row (some "ill") ten_o_clock)
unfolding cancel_booking write_cancellation create_audit_log enqueue_booking_cancellation
    insert_intent offer_first find_matching_waitlist_entries enqueue_waitlist_offer
    fail_linked_pending_payment require_booking_in_business get_calendar_event_for_booking
    enqueue_all enqueue_send_notification_job enqueue_cancel_calendar_event_job require_business
    require_service_in_business require_customer_in_business ◌>>=◌
ten_cancelled = refl

-- Ann is ill.
cancel_booking-cancelled_in_example :
    (cancel_booking env 1 1 1 (some "ill") none false session).1.committed.bookings
    ≡ one_o_clock ∷ cancel_row (some "ill") ten_o_clock ∷ []
cancel_booking-cancelled_in_example =
    cancel_booking-cancelled_in env 1 1 1 (some "ill") none false session
      (cancel_row (some "ill") ten_o_clock) ten_cancelled

abbrev lineage : ℕ → String
lineage old_id = "rescheduled"

abbrev ann_at_eleven : Booking
ann_at_eleven =
    new_booking env (rescheduled_request ten_o_clock 1 (at 11 0) "web") BookingStatus.confirmed
      (at 12 0) 14

ten_moved :
    (reschedule_booking env lineage 1 1 1 (at 11 0) none none "web" session).0 ≡ ok ann_at_eleven
unfolding reschedule_booking create_booking write_booking insert_booking create_audit_log
    enqueue_booking_confirmation insert_intent enqueue_calendar_event get_calendar_integration
    integration_of catch_overlap enqueue_all enqueue_sync_calendar_event_job
    enqueue_send_notification_job check_double_booking require_business require_service_in_business
    require_customer_in_business require_staff_in_business ◌>>=◌ cancel_booking write_cancellation
    enqueue_booking_cancellation offer_first find_matching_waitlist_entries enqueue_waitlist_offer
    fail_linked_pending_payment require_booking_in_business get_calendar_event_for_booking
    enqueue_cancel_calendar_event_job
ten_moved = refl

-- Ann moves to eleven.
reschedule_booking-MovedTo_example :
    MovedTo 1 1
      (at 11 0)
      none
      tables.bookings
      ann_at_eleven
      (reschedule_booking env lineage 1 1 1 (at 11 0) none none "web" session).1.committed.bookings
reschedule_booking-MovedTo_example =
    reschedule_booking-MovedTo env lineage 1 1 1 (at 11 0) none none "web" session ann_at_eleven
      ten_moved

ten_cancelled_first :
    (cancel_booking env 1 1 1 none none false session).0 ≡ ok (cancel_row none ten_o_clock)
unfolding cancel_booking write_cancellation create_audit_log enqueue_booking_cancellation
    insert_intent offer_first find_matching_waitlist_entries enqueue_waitlist_offer
    fail_linked_pending_payment require_booking_in_business get_calendar_event_for_booking
    enqueue_all enqueue_send_notification_job enqueue_cancel_calendar_event_job require_business
    require_service_in_business require_customer_in_business ◌>>=◌
ten_cancelled_first = refl

half_past_one_taken :
    (create_booking env
      (rescheduled_request ten_o_clock 1 (at 13 30) "web")
      none
      false
      none
      (cancel_booking env 1 1 1 none none false session).1).0
    ≡ err (conflict "This time slot is already booked for the selected staff")
unfolding create_booking write_booking insert_booking create_audit_log enqueue_booking_confirmation
    insert_intent enqueue_calendar_event get_calendar_integration integration_of catch_overlap
    enqueue_all enqueue_sync_calendar_event_job enqueue_send_notification_job check_double_booking
    require_business require_service_in_business require_customer_in_business
    require_staff_in_business ◌>>=◌ cancel_booking write_cancellation enqueue_booking_cancellation
    offer_first find_matching_waitlist_entries enqueue_waitlist_offer fail_linked_pending_payment
    require_booking_in_business get_calendar_event_for_booking enqueue_cancel_calendar_event_job
half_past_one_taken = refl

ten_found : require_booking_in_business session.db 1 1 1 ≡ ok ten_o_clock
unfolding require_booking_in_business
ten_found = refl

not_redis : conflict "This time slot is already booked for the selected staff" ≢ redis_error
not_redis e = cc

-- Ann asks to move to half past one, where Bob's hold is, and has no booking left.
reschedule_booking_half_example :
    ((reschedule_booking env lineage 1 1 1 (at 13 30) none none "web" session).0
      ≡ err (conflict "This time slot is already booked for the selected staff"))
    × ((reschedule_booking env lineage 1 1 1
          (at 13 30)
          none
          none
          "web"
          session).1.committed.bookings
        ≡ one_o_clock ∷ cancel_row none ten_o_clock ∷ [])
reschedule_booking_half_example =
    reschedule_booking_half env lineage 1 1 1 (at 13 30) none none "web" session ten_o_clock
      (cancel_row none ten_o_clock)
      (conflict "This time slot is already booked for the selected staff") ten_found refl
      ten_cancelled_first half_past_one_taken not_redis

-- Somebody else commits a booking at half past eleven while Bob's call runs.
abbrev raced_env : Env
raced_env = record env {
  raced = record ten_o_clock { id = 9; starts_at = at 11 30; ends_at = at 12 30 } ∷ [];
}

create_booking_race_example :
    (create_booking raced_env (bob_asks (at 11 0)) none false none session).0
    ≡ err (integrity_error no_overlapping_staff_bookings)
unfolding check_double_booking require_business require_service_in_business
    require_customer_in_business require_staff_in_business
create_booking_race_example =
    create_booking_race raced_env (bob_asks (at 11 0)) none session salon bob haircut refl refl refl
      refl refl refl refl
