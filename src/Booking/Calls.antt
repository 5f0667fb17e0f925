-- ===== src/Booking/Calls.antt =====
-- The calls that change bookings, as data: what the routes, the SMS replies, the IVR and the
-- worker's sweep ask of app/services/booking_service.py.
use appointment_voice_saas.Common.{ℕ, String, Option, Bool, true, false}
use appointment_voice_saas.Session.{Action, pure, ◌>>◌}
use appointment_voice_saas.Env.{Env}
use appointment_voice_saas.Booking.Create.{
  BookingRequest, create_booking, create_pending_payment_hold,
}
use appointment_voice_saas.Booking.Payment.{confirm_booking_payment, refund_booking_payment}
use appointment_voice_saas.Booking.Cancel.{
  cancel_booking, expire_pending_payment_hold, expire_stale_payment_holds,
}
use appointment_voice_saas.Booking.Reschedule.{reschedule_booking}

pub data Call : Type 0 where
  create : BookingRequest → Option ℕ → Bool → Option String → Call
  hold : BookingRequest → String → Option String → Call
  confirm : ℕ → ℕ → ℕ → Option String → String → Call
  refund : ℕ → ℕ → ℕ → Option ℕ → Option String → Call
  cancel : ℕ → ℕ → ℕ → Option String → Option ℕ → Bool → Call
  expire : ℕ → ℕ → ℕ → Call
  reschedule : (ℕ → String) → ℕ → ℕ → ℕ → ℕ → Option String → Option ℕ → String → Call
  sweep : Call

unfoldable pub perform : Env → Call → Action (Unit {0})
perform env (create r actor_id override reason) =
    create_booking env r actor_id override reason >> pure tt
perform env (hold r provider session) =
    create_pending_payment_hold env r provider session >> pure tt
perform env (confirm booking_id business_id tenant_id payment source) =
    confirm_booking_payment env booking_id business_id tenant_id payment source >> pure tt
perform env (refund booking_id business_id tenant_id actor_id reason) =
    refund_booking_payment env booking_id business_id tenant_id actor_id reason >> pure tt
perform env (cancel booking_id business_id tenant_id reason actor_id override) =
    cancel_booking env booking_id business_id tenant_id reason actor_id override >> pure tt
perform env (expire booking_id business_id tenant_id) =
    expire_pending_payment_hold env booking_id business_id tenant_id >> pure tt
perform env
      (reschedule lineage booking_id business_id tenant_id new_starts_at reason actor_id source) =
    reschedule_booking env lineage booking_id business_id tenant_id new_starts_at reason actor_id
      source
    >> pure tt
perform env sweep = expire_stale_payment_holds env >> pure tt

-- The calls that run in one transaction.
abbrev pub is_single : Call → Bool
is_single (create r actor_id override reason) = true
is_single (hold r provider session) = true
is_single (confirm booking_id business_id tenant_id payment source) = true
is_single (refund booking_id business_id tenant_id actor_id reason) = true
is_single (cancel booking_id business_id tenant_id reason actor_id override) = true
is_single (expire booking_id business_id tenant_id) = true
is_single (reschedule lineage booking_id business_id tenant_id at reason actor_id source) = false
is_single sweep = false
