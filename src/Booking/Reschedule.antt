-- ===== src/Booking/Reschedule.antt =====
-- app/services/booking_service.py: `reschedule_booking`, a cancellation and a new booking.
use appointment_voice_saas.Common.{ℕ, String, Option, none, some, true, false}
use appointment_voice_saas.Tables.{Booking, is_confirmed, AuditAction}
use appointment_voice_saas.Errors.{conflict, require_that}
use appointment_voice_saas.Session.{Action, pure, read, ◌>>=◌, ◌>>◌}
use appointment_voice_saas.Env.{Env}
use appointment_voice_saas.Audit.{create_audit_log}
use appointment_voice_saas.Booking.Reads.{require_booking_in_business}
use appointment_voice_saas.Booking.Create.{BookingRequest, create_booking}
use appointment_voice_saas.Booking.Cancel.{cancel_booking}

-- What the new booking asks for: all of the old one but its time.
abbrev pub rescheduled_request : Booking → ℕ → ℕ → String → BookingRequest
rescheduled_request old tenant_id new_starts_at source = record {
  tenant_id = tenant_id;
  business_id = old.business_id;
  customer_id = old.customer_id;
  service_id = old.service_id;
  staff_id = old.staff_id;
  starts_at = new_starts_at;
  source = source;
}

-- `lineage` renders an id as f"rescheduled_from_booking_{id}".
unfoldable pub reschedule_booking :
    Env → (ℕ → String) → ℕ → ℕ → ℕ → ℕ → Option String → Option ℕ → String → Action Booking
reschedule_booking env lineage booking_id business_id tenant_id new_starts_at reason actor_id
      source =
    do
      old ← read (λ db. require_booking_in_business db booking_id business_id tenant_id)
      read (λ _.
          require_that (is_confirmed old.status)
            (conflict "Only a confirmed booking can be rescheduled"))
      cancel_booking env old.id business_id tenant_id reason actor_id false
      new ←
          create_booking env (rescheduled_request old tenant_id new_starts_at source) actor_id false
            none
      create_audit_log env tenant_id actor_id AuditAction.booking_rescheduled (some new.id)
          (some (lineage old.id)) true
      pure new
