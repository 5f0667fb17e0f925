-- ===== src/Booking/Payment.antt =====
-- app/services/booking_service.py: `_fail_linked_pending_payment`, `confirm_booking_payment` and
-- `refund_booking_payment`.
use appointment_voice_saas.Common.{
  ℕ, String, Option, none, some, Bool, false, ◌&&◌, ◌==◌, find_by, if◌then◌else◌,
}
use appointment_voice_saas.Tables.{
  Db, Booking, BookingStatus, BookingPayment, BookingPaymentStatus, AuditAction, payment_is_pending,
  payment_succeeded,
}
use appointment_voice_saas.Errors.{not_found, conflict, or_raise, require_that}
use appointment_voice_saas.Lookups.{
  require_business, require_customer_in_business, require_service_in_business,
}
use appointment_voice_saas.Session.{Action, pure, raise, read, query, modify, commit, ◌>>=◌, ◌>>◌}
use appointment_voice_saas.Env.{Env}
use appointment_voice_saas.Audit.{create_audit_log}
use appointment_voice_saas.Outbox.{enqueue_booking_confirmation, enqueue_all}
use appointment_voice_saas.Calendar.{enqueue_calendar_event, enqueue_sync_calendar_event_job}
use appointment_voice_saas.Booking.Reads.{
  require_booking_in_business, payment_of_booking, update_booking, update_payment,
}

abbrev pub is_pending_of : Booking → BookingPayment → Bool
is_pending_of booking p =
    p.booking_id == booking.id && p.tenant_id == booking.tenant_id && payment_is_pending p.status

abbrev pub fail_payment : Option String → BookingPayment → BookingPayment
fail_payment reason p = record p { status = BookingPaymentStatus.failed; failure_reason = reason }

abbrev pub fail_found : Booking → Option BookingPayment → Db → Db
fail_found booking none db = db
fail_found booking (some p) db = update_payment p.id (fail_payment booking.cancel_reason) db

-- `_fail_linked_pending_payment`
unfoldable pub fail_linked_pending_payment : Booking → Db → Db
fail_linked_pending_payment booking db =
    fail_found booking (find_by (is_pending_of booking) db.payments) db

abbrev pub is_paid : Option BookingPayment → Bool
is_paid none = false
is_paid (some p) = payment_succeeded p.status

abbrev pub succeed_payment : Env → Option String → BookingPayment → BookingPayment
succeed_payment env provider_payment_id p = record p {
  status = BookingPaymentStatus.succeeded;
  provider_payment_id = provider_payment_id;
  paid_at = some env.now;
}

abbrev pub confirm_row : Booking → Booking
confirm_row b = record b { status = BookingStatus.confirmed }

-- A hold that waits for its payment.
unfoldable pub confirm_hold : Env → ℕ → Option String → String → Booking → Action Booking
confirm_hold env tenant_id provider_payment_id source booking = do
  payment ← read (λ db.
      or_raise (payment_of_booking db booking.id tenant_id)
        (not_found "No payment found for this booking"))
  read (λ _. require_that (payment_is_pending payment.status) (conflict "Payment is not pending"))
  modify (update_payment payment.id (succeed_payment env provider_payment_id))
  modify (update_booking booking.id confirm_row)
  create_audit_log env tenant_id none AuditAction.booking_confirmed (some booking.id) (some source)
      false
  business ← read (λ db. require_business db booking.business_id tenant_id)
  customer ←
      read (λ db. require_customer_in_business db booking.customer_id booking.business_id tenant_id)
  svc ← read (λ db. require_service_in_business db booking.service_id booking.business_id tenant_id)
  intents ← enqueue_booking_confirmation env (confirm_row booking) business customer svc
  calendar_event ← enqueue_calendar_event env (confirm_row booking) business
  commit
  enqueue_all intents
  enqueue_sync_calendar_event_job calendar_event.id
  pure (confirm_row booking)

unfoldable pub confirm_by_status :
    BookingStatus → Env → ℕ → Option String → String → Booking → Action Booking
confirm_by_status BookingStatus.confirmed env tenant_id provider_payment_id source booking = do
  payment ← query (λ db. payment_of_booking db booking.id tenant_id)
  if is_paid payment then pure booking else raise (conflict "Booking is not awaiting payment")
confirm_by_status BookingStatus.cancelled env tenant_id provider_payment_id source booking =
    raise (conflict "Booking is not awaiting payment")
confirm_by_status BookingStatus.pending_payment env tenant_id provider_payment_id source booking =
    confirm_hold env tenant_id provider_payment_id source booking

unfoldable pub confirm_booking_payment : Env → ℕ → ℕ → ℕ → Option String → String → Action Booking
confirm_booking_payment env booking_id business_id tenant_id provider_payment_id source = do
  booking ← read (λ db. require_booking_in_business db booking_id business_id tenant_id)
  confirm_by_status booking.status env tenant_id provider_payment_id source booking

abbrev pub refund_payment : Env → BookingPayment → BookingPayment
refund_payment env p = record p {
  status = BookingPaymentStatus.refunded;
  refunded_at = some env.now;
}

unfoldable pub refund_booking_payment :
    Env → ℕ → ℕ → ℕ → Option ℕ → Option String → Action BookingPayment
refund_booking_payment env booking_id business_id tenant_id actor_id reason = do
  booking ← read (λ db. require_booking_in_business db booking_id business_id tenant_id)
  payment ← read (λ db.
      or_raise (payment_of_booking db booking.id tenant_id)
        (not_found "No payment found for this booking"))
  read (λ _.
      require_that (payment_succeeded payment.status)
        (conflict "Only a succeeded payment can be refunded"))
  modify (update_payment payment.id (refund_payment env))
  create_audit_log env tenant_id actor_id AuditAction.booking_payment_refunded (some booking.id)
      reason false
  commit
  pure (refund_payment env payment)
