-- ===== src/Booking/Create.antt =====
-- app/services/booking_service.py: `create_booking` and `create_pending_payment_hold`.
use Prim.Native.String.{◌++◌}
use appointment_voice_saas.Common.{
  ℕ, ◌+◌, String, Option, none, some, ◌∷◌, Bool, true, false, not, ◌&&◌, ◌==◌, any_of,
  if◌then◌else◌,
}
use appointment_voice_saas.Tables.{
  Db, Booking, BookingStatus, BookingPayment, BookingPaymentStatus, Business, Customer, Service,
  AuditAction, minutes,
}
use appointment_voice_saas.Errors.{
  Result, ok, err, bad_request, integrity_error, uq_booking_payments_booking_id, require_that,
}
use appointment_voice_saas.Lookups.{
  require_business, require_customer_in_business, require_service_in_business,
  require_staff_in_business,
}
use appointment_voice_saas.Session.{
  Action, pure, read, modify, commit, fresh_id, ◌>>=◌, ◌>>◌, catch_overlap,
}
use appointment_voice_saas.Env.{Env, is_missing}
use appointment_voice_saas.Audit.{create_audit_log}
use appointment_voice_saas.Outbox.{enqueue_booking_confirmation, enqueue_all}
use appointment_voice_saas.Calendar.{enqueue_calendar_event, enqueue_sync_calendar_event_job}
use appointment_voice_saas.Booking.Overlap.{check_double_booking, insert_booking}

-- The keyword arguments that the two functions share.
pub record BookingRequest : Type 0 where
  pub tenant_id : ℕ
  pub business_id : ℕ
  pub customer_id : ℕ
  pub service_id : ℕ
  pub staff_id : Option ℕ
  pub starts_at : ℕ
  pub source : String

abbrev pub found {ℓ} : {A : Type ℓ} → Result A → Result (Unit {0})
found (ok a) = ok tt
found (err e) = err e

-- `if staff_id is not None: require_staff_in_business(...)`
abbrev pub require_staff_if_given : Option ℕ → ℕ → ℕ → Db → Result (Unit {0})
require_staff_if_given none business_id tenant_id db = ok tt
require_staff_if_given (some staff_id) business_id tenant_id db =
    found (require_staff_in_business db staff_id business_id tenant_id)

abbrev pub new_booking : Env → BookingRequest → BookingStatus → ℕ → ℕ → Booking
new_booking env r status ends_at id = record {
  id = id;
  tenant_id = r.tenant_id;
  business_id = r.business_id;
  customer_id = r.customer_id;
  service_id = r.service_id;
  staff_id = r.staff_id;
  starts_at = r.starts_at;
  ends_at = ends_at;
  status = status;
  source = r.source;
  cancel_reason = none;
  created_at = env.now;
}

abbrev pub created_action : Bool → AuditAction
created_action override =
    if override then AuditAction.booking_override_created else AuditAction.booking_created

-- From the insert on. The insert's flush stands outside the `try` of the source.
unfoldable pub write_booking :
    Env
    → BookingRequest
    → Option ℕ
    → Bool
    → Option String
    → Business
    → Customer
    → Service
    → Action Booking
write_booking env r actor_id override reason business customer svc = do
  id ← fresh_id
  let booking : Booking =
      new_booking env r BookingStatus.confirmed (r.starts_at + minutes svc.duration_minutes) id
  insert_booking env booking
  create_audit_log env r.tenant_id actor_id (created_action override) (some booking.id)
      (if override then reason else some r.source) false
  intents ← enqueue_booking_confirmation env booking business customer svc
  calendar_event ←
      catch_overlap (do event ← enqueue_calendar_event env booking business; commit; pure event)
  enqueue_all intents
  enqueue_sync_calendar_event_job calendar_event.id
  pure booking

unfoldable pub create_booking :
    Env → BookingRequest → Option ℕ → Bool → Option String → Action Booking
create_booking env r actor_id override reason = do
  read (λ _.
      require_that (not (override && is_missing reason))
        (bad_request "reason is required for an admin override booking"))
  business ← read (λ db. require_business db r.business_id r.tenant_id)
  customer ← read (λ db. require_customer_in_business db r.customer_id r.business_id r.tenant_id)
  svc ← read (λ db. require_service_in_business db r.service_id r.business_id r.tenant_id)
  read (require_staff_if_given r.staff_id r.business_id r.tenant_id)
  read (λ db.
      check_double_booking db r.staff_id r.business_id r.starts_at
        (r.starts_at + minutes svc.duration_minutes) none)
  write_booking env r actor_id override reason business customer svc

abbrev pub add_payment : BookingPayment → Db → Db
add_payment p db = record db { payments = p ∷ db.payments }

-- The UNIQUE constraint of booking_payments.
abbrev pub no_payment_yet : ℕ → Db → Result (Unit {0})
no_payment_yet booking_id db =
    if any_of (λ (p : BookingPayment). p.booking_id == booking_id) db.payments
    then err (integrity_error uq_booking_payments_booking_id)
    else ok tt

-- `not svc.deposit_required or svc.deposit_minor_units is None or svc.currency is None` raises;
-- otherwise the amount and the currency.
abbrev pub deposit : Bool → Option ℕ → Option String → Result (ℕ × String)
deposit true (some amount) (some currency) = ok (amount, currency)
deposit true (some amount) none = err (bad_request "service does not require a deposit")
deposit true none currency = err (bad_request "service does not require a deposit")
deposit false amount currency = err (bad_request "service does not require a deposit")

abbrev pub deposit_of : Service → Result (ℕ × String)
deposit_of svc = deposit svc.deposit_required svc.deposit_minor_units svc.currency

-- The `try` block of `create_pending_payment_hold`.
unfoldable pub write_hold :
    Env → BookingRequest → String → Option String → Service → ℕ → String → Action Booking
write_hold env r provider provider_session_id svc amount currency = do
  id ← fresh_id
  let booking : Booking =
      new_booking env r BookingStatus.pending_payment (r.starts_at + minutes svc.duration_minutes)
        id
  insert_booking env booking
  payment_id ← fresh_id
  read (no_payment_yet booking.id)
  modify (
      add_payment (record {
        id = payment_id;
        tenant_id = r.tenant_id;
        business_id = r.business_id;
        booking_id = booking.id;
        provider = provider;
        provider_session_id = provider_session_id;
        provider_payment_id = none;
        amount_minor_units = amount;
        currency = currency;
        status = BookingPaymentStatus.pending;
        failure_reason = none;
        paid_at = none;
        refunded_at = none;
      }))
  create_audit_log env r.tenant_id none AuditAction.booking_created (some booking.id)
      (some ("payment_hold:" ++ provider)) false
  commit
  pure booking

unfoldable pub create_pending_payment_hold :
    Env → BookingRequest → String → Option String → Action Booking
create_pending_payment_hold env r provider provider_session_id = do
  read (λ db. require_business db r.business_id r.tenant_id)
  read (λ db. require_customer_in_business db r.customer_id r.business_id r.tenant_id)
  svc ← read (λ db. require_service_in_business db r.service_id r.business_id r.tenant_id)
  deposit ← read (λ _. deposit_of svc)
  read (require_staff_if_given r.staff_id r.business_id r.tenant_id)
  read (λ db.
      check_double_booking db r.staff_id r.business_id r.starts_at
        (r.starts_at + minutes svc.duration_minutes) none)
  catch_overlap (write_hold env r provider provider_session_id svc deposit.0 deposit.1)
