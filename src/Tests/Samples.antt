-- ===== src/Tests/Samples.antt =====
-- One salon of one tenant, with one stylist, on Thursday, the first day of the epoch.
use appointment_voice_saas.Common.{ℕ, ◌+◌, ◌*◌, none, some, [], ◌∷◌, true, false}
use appointment_voice_saas.Tables.{
  Db, Business, Customer, Service, Staff, WorkingHours, RecurringStaffBlock, Booking, BookingStatus,
  BookingPayment, BookingPaymentStatus, WaitlistEntry, WaitlistEntryStatus, minutes,
}
use appointment_voice_saas.Session.{Session}
use appointment_voice_saas.Env.{Env}
use appointment_voice_saas.Booking.Create.{BookingRequest}

-- A time of day, or an instant of the first day, by hour and minute.
abbrev pub at : ℕ → ℕ → ℕ
at h m = minutes (h * 60 + m)

abbrev pub salon : Business
salon = record {
  id = 1;
  tenant_id = 1;
  name = "Salon";
  timezone = "UTC";
  owner_notification_phone = some "+48100";
  language = "en";
  transfer_phone_number = some "+48100";
  transfer_enabled = true;
  transfer_destination_policy = "business_phone";
  booking_mode = "internal_booking";
  external_booking_url = none;
  external_booking_label = none;
}

abbrev pub ann : Customer
ann = record {
  id = 1;
  tenant_id = 1;
  business_id = 1;
  phone = "+48200";
  phone_normalized = "+48200";
  name = some "Ann";
}

abbrev pub bob : Customer
bob = record {
  id = 2;
  tenant_id = 1;
  business_id = 1;
  phone = "+48300";
  phone_normalized = "+48300";
  name = none;
}

abbrev pub haircut : Service
haircut = record {
  id = 1;
  tenant_id = 1;
  business_id = 1;
  name = "Haircut";
  duration_minutes = 60;
  currency = some "PLN";
  deposit_required = true;
  deposit_minor_units = some 2000;
  is_active = true;
}

abbrev pub stylist : Staff
stylist = record {
  id = 1;
  tenant_id = 1;
  business_id = 1;
  name = "Eve";
  phone = none;
  is_active = true;
}

abbrev pub opening : WorkingHours
opening = record {
  id = 1;
  tenant_id = 1;
  business_id = 1;
  staff_id = none;
  day_of_week = 3;
  start_time = at 9 0;
  end_time = at 14 0;
}

abbrev pub lunch : RecurringStaffBlock
lunch = record {
  id = 1;
  tenant_id = 1;
  business_id = 1;
  staff_id = some 1;
  day_of_week = 3;
  start_time = at 12 0;
  end_time = at 13 0;
}

-- Ann's confirmed booking at ten.
abbrev pub ten_o_clock : Booking
ten_o_clock = record {
  id = 1;
  tenant_id = 1;
  business_id = 1;
  customer_id = 1;
  service_id = 1;
  staff_id = some 1;
  starts_at = at 10 0;
  ends_at = at 11 0;
  status = BookingStatus.confirmed;
  source = "web";
  cancel_reason = none;
  created_at = 0;
}

-- Bob's payment hold at one.
abbrev pub one_o_clock : Booking
one_o_clock = record ten_o_clock {
  id = 2;
  customer_id = 2;
  starts_at = at 13 0;
  ends_at = at 14 0;
  status = BookingStatus.pending_payment;
}

abbrev pub bobs_payment : BookingPayment
bobs_payment = record {
  id = 1;
  tenant_id = 1;
  business_id = 1;
  booking_id = 2;
  provider = "stripe";
  provider_session_id = none;
  provider_payment_id = none;
  amount_minor_units = 2000;
  currency = "PLN";
  status = BookingPaymentStatus.pending;
  failure_reason = none;
  paid_at = none;
  refunded_at = none;
}

abbrev pub bob_waits : WaitlistEntry
bob_waits = record {
  id = 1;
  tenant_id = 1;
  business_id = 1;
  customer_id = 2;
  service_id = 1;
  staff_id = none;
  offered_for_staff_id = none;
  desired_date = 0;
  status = WaitlistEntryStatus.waiting;
  created_at = 0;
  updated_at = 0;
}

abbrev pub tables : Db
tables = record {
  businesses = salon ∷ [];
  customers = ann ∷ bob ∷ [];
  clients = [];
  services = haircut ∷ [];
  staff = stylist ∷ [];
  working_hours = opening ∷ [];
  exceptions = [];
  blocks = lunch ∷ [];
  bookings = one_o_clock ∷ ten_o_clock ∷ [];
  line_items = [];
  payments = bobs_payment ∷ [];
  waitlist = bob_waits ∷ [];
  audit_logs = [];
  outbox = [];
  integrations = [];
  calendar_events = [];
  idempotency_records = [];
  voice_sessions = [];
}

abbrev pub session : Session
session = record {
  db = tables;
  committed = tables;
  queued = [];
  answers = [];
  locks = [];
  next_id = 10;
}

-- Eight in the morning, and nobody else about.
abbrev pub env : Env
env = record {
  now = at 8 0;
  booking_payment_hold_minutes = 15;
  waitlist_offer_timeout_minutes = 15;
  worker_max_retries = 3;
  worker_reconciliation_stale_minutes = 60;
  reminder_lead_minutes = 1440;
  reminder_min_advance_minutes = 120;
  format_local_time = λ zone instant. "today";
  format_date = λ date. "today";
  booking_public_base_url = "";
  hmac_sha256 = λ message. message;
  wide_digit = λ c. none;
  raced = [];
  raced_customers = [];
  raced_responses = [];
  sha256 = λ text. text;
  idempotency_ttl_seconds = 86400;
  idempotency_processing_lock_ttl_seconds = 60;
  is_locked = λ entry_id. false;
  today = 0;
  to_utc = λ zone reading. reading;
  strftime = λ pattern instant. "today";
  ivr_session_ttl_minutes = 10;
  ivr_slot_search_days = 7;
  ivr_max_slots = 5;
}

-- Bob asks for the stylist at a given time.
abbrev pub bob_asks : ℕ → BookingRequest
bob_asks starts_at = record {
  tenant_id = 1;
  business_id = 1;
  customer_id = 2;
  service_id = 1;
  staff_id = some 1;
  starts_at = starts_at;
  source = "web";
}
