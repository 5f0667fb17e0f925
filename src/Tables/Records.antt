-- ===== src/Tables/Records.antt =====
-- app/models: bookings, payments, the waitlist, the audit log, the outbox and the calendar.
use appointment_voice_saas.Common.{ℕ, String, Bool, true, false, Option}

pub data BookingStatus : Type 0 where
  confirmed cancelled pending_payment : BookingStatus

pub record Booking : Type 0 where
  pub id : ℕ
  pub tenant_id : ℕ
  pub business_id : ℕ
  pub customer_id : ℕ
  pub service_id : ℕ
  pub staff_id : Option ℕ
  pub starts_at : ℕ
  pub ends_at : ℕ
  pub status : BookingStatus
  pub source : String
  pub cancel_reason : Option String
  pub created_at : ℕ

-- `status.in_([CONFIRMED, PENDING_PAYMENT])`
abbrev pub is_active : BookingStatus → Bool
is_active BookingStatus.confirmed = true
is_active BookingStatus.cancelled = false
is_active BookingStatus.pending_payment = true

abbrev pub is_confirmed : BookingStatus → Bool
is_confirmed BookingStatus.confirmed = true
is_confirmed BookingStatus.cancelled = false
is_confirmed BookingStatus.pending_payment = false

abbrev pub is_pending_payment : BookingStatus → Bool
is_pending_payment BookingStatus.confirmed = false
is_pending_payment BookingStatus.cancelled = false
is_pending_payment BookingStatus.pending_payment = true

pub record BookingLineItem : Type 0 where
  pub id : ℕ
  pub tenant_id : ℕ
  pub business_id : ℕ
  pub booking_id : ℕ
  pub service_id : ℕ
  pub position : ℕ
  pub duration_minutes : ℕ

pub data BookingPaymentStatus : Type 0 where
  pending succeeded failed refunded : BookingPaymentStatus

pub record BookingPayment : Type 0 where
  pub id : ℕ
  pub tenant_id : ℕ
  pub business_id : ℕ
  pub booking_id : ℕ
  pub provider : String
  pub provider_session_id : Option String
  pub provider_payment_id : Option String
  pub amount_minor_units : ℕ
  pub currency : String
  pub status : BookingPaymentStatus
  pub failure_reason : Option String
  pub paid_at : Option ℕ
  pub refunded_at : Option ℕ

abbrev pub payment_is_pending : BookingPaymentStatus → Bool
payment_is_pending BookingPaymentStatus.pending = true
payment_is_pending BookingPaymentStatus.succeeded = false
payment_is_pending BookingPaymentStatus.failed = false
payment_is_pending BookingPaymentStatus.refunded = false

abbrev pub payment_succeeded : BookingPaymentStatus → Bool
payment_succeeded BookingPaymentStatus.pending = false
payment_succeeded BookingPaymentStatus.succeeded = true
payment_succeeded BookingPaymentStatus.failed = false
payment_succeeded BookingPaymentStatus.refunded = false

pub data WaitlistEntryStatus : Type 0 where
  waiting offered confirmed expired cancelled : WaitlistEntryStatus

pub record WaitlistEntry : Type 0 where
  pub id : ℕ
  pub tenant_id : ℕ
  pub business_id : ℕ
  pub customer_id : ℕ
  pub service_id : ℕ
  pub staff_id : Option ℕ
  pub offered_for_staff_id : Option ℕ
  pub desired_date : ℕ
  pub status : WaitlistEntryStatus
  pub created_at : ℕ
  pub updated_at : ℕ

abbrev pub is_waiting : WaitlistEntryStatus → Bool
is_waiting WaitlistEntryStatus.waiting = true
is_waiting WaitlistEntryStatus.offered = false
is_waiting WaitlistEntryStatus.confirmed = false
is_waiting WaitlistEntryStatus.expired = false
is_waiting WaitlistEntryStatus.cancelled = false

abbrev pub is_offered : WaitlistEntryStatus → Bool
is_offered WaitlistEntryStatus.waiting = false
is_offered WaitlistEntryStatus.offered = true
is_offered WaitlistEntryStatus.confirmed = false
is_offered WaitlistEntryStatus.expired = false
is_offered WaitlistEntryStatus.cancelled = false

-- The actions of app/models/audit_log.py that concern bookings and customers.
pub data AuditAction : Type 0 where
  booking_created booking_cancelled booking_rescheduled booking_confirmed : AuditAction
  booking_override_created booking_override_cancelled booking_hold_expired : AuditAction
  booking_payment_refunded customer_anonymized : AuditAction

pub record AuditLog : Type 0 where
  pub id : ℕ
  pub tenant_id : ℕ
  pub admin_id : Option ℕ
  pub action : AuditAction
  pub target_booking_id : Option ℕ
  pub source : Option String
  pub created_at : ℕ

pub record IdempotencyRecord : Type 0 where
  pub id : ℕ
  pub scope_key : String
  pub status_code : ℕ
  pub response_body : String
  pub expires_at : ℕ

pub data NotificationPurpose : Type 0 where
  booking_confirmation booking_cancellation booking_reminder : NotificationPurpose
  external_booking_link waitlist_offer : NotificationPurpose

pub data NotificationStatus : Type 0 where
  pending sent failed : NotificationStatus

-- The channel is always SMS.
pub record NotificationOutbox : Type 0 where
  pub id : ℕ
  pub tenant_id : ℕ
  pub business_id : ℕ
  pub booking_id : Option ℕ
  pub purpose : NotificationPurpose
  pub recipient_phone : String
  pub body : String
  pub status : NotificationStatus
  pub attempts : ℕ
  pub last_error : Option String
  pub provider_message_id : Option String
  pub created_at : ℕ
  pub sent_at : Option ℕ
  pub reconciled_at : Option ℕ

pub data CalendarVisibility : Type 0 where
  visible_public visible_private : CalendarVisibility

pub record CalendarIntegration : Type 0 where
  pub id : ℕ
  pub tenant_id : ℕ
  pub business_id : ℕ
  pub staff_id : Option ℕ
  pub provider : String
  pub is_active : Bool
  pub visibility : CalendarVisibility

pub data CalendarSyncStatus : Type 0 where
  pending synced failed cancelled cancel_failed : CalendarSyncStatus

pub record CalendarEvent : Type 0 where
  pub id : ℕ
  pub tenant_id : ℕ
  pub business_id : ℕ
  pub booking_id : ℕ
  pub provider : String
  pub provider_event_id : Option String
  pub status : CalendarSyncStatus
  pub attempts : ℕ
  pub cancel_attempts : ℕ
  pub last_error : Option String
  pub created_at : ℕ
  pub synced_at : Option ℕ
  pub reconciled_at : Option ℕ
