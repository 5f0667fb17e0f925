-- ===== src/Outbox/Reminders.antt =====
-- app/services/notification_service.py: `enqueue_due_reminders` and
-- `enqueue_external_booking_link_sms`.
pub mod Once
use Prim.Native.String.{◌++◌}
use appointment_voice_saas.Common.{
  ℕ, ◌+◌, String, Option, none, some, List, [], ◌∷◌, Bool, true, false, ◌&&◌, ◌==◌, ltb, leb, is_id,
  any_of, filter_by, if◌then◌else◌,
}
use appointment_voice_saas.Tables.{
  Db, Business, Customer, Service, Booking, NotificationOutbox, NotificationPurpose, is_confirmed,
  minutes,
}
use appointment_voice_saas.Lookups.{
  require_business, require_customer_in_business, require_service_in_business,
}
use appointment_voice_saas.Session.{Action, pure, read, query, commit, ◌>>=◌, ◌>>◌}
use appointment_voice_saas.Env.{Env}
use appointment_voice_saas.Outbox.{insert_intent, enqueue_send_notification_job}

abbrev pub is_reminder_purpose : NotificationPurpose → Bool
is_reminder_purpose NotificationPurpose.booking_confirmation = false
is_reminder_purpose NotificationPurpose.booking_cancellation = false
is_reminder_purpose NotificationPurpose.booking_reminder = true
is_reminder_purpose NotificationPurpose.external_booking_link = false
is_reminder_purpose NotificationPurpose.waitlist_offer = false

abbrev pub is_reminder_of : ℕ → NotificationOutbox → Bool
is_reminder_of booking_id n = is_reminder_purpose n.purpose && is_id n.booking_id booking_id

-- From the lookups on: a booking that has no reminder yet.
unfoldable pub write_reminder : Env → Booking → Action Bool
write_reminder env booking = do
  business ← read (λ db. require_business db booking.business_id booking.tenant_id)
  customer ← read (λ db.
      require_customer_in_business db booking.customer_id booking.business_id booking.tenant_id)
  service ← read (λ db.
      require_service_in_business db booking.service_id booking.business_id booking.tenant_id)
  intent ←
      insert_intent env booking.tenant_id booking.business_id (some booking.id)
        NotificationPurpose.booking_reminder customer.phone
        ("Reminder: your "
          ++ service.name
          ++ " appointment at "
          ++ business.name
          ++ " is at "
          ++ env.format_local_time business.timezone booking.starts_at
          ++ ".")
  enqueue_send_notification_job intent.id
  pure true

-- One round of the loop; `false` is its `continue`.
unfoldable pub remind : Env → Booking → Action Bool
remind env booking =
    if ltb booking.starts_at (booking.created_at + minutes env.reminder_min_advance_minutes)
    then pure false
    else do
      already_queued ← query (λ db. any_of (is_reminder_of booking.id) db.outbox)
      if already_queued then pure false else write_reminder env booking

unfoldable pub remind_each : Env → List Booking → ℕ → Action ℕ
remind_each env [] count = pure count
remind_each env (b ∷ rest) count = do
  reminded ← remind env b
  remind_each env rest (if reminded then count + 1 else count)

abbrev pub is_due : Env → Booking → Bool
is_due env b =
    is_confirmed b.status
    && ltb env.now b.starts_at
    && leb b.starts_at (env.now + minutes env.reminder_lead_minutes)

unfoldable pub enqueue_due_reminders : Env → Action ℕ
enqueue_due_reminders env = do
  due_bookings ← query (λ db. filter_by (is_due env) db.bookings)
  count ← remind_each env due_bookings 0
  if ltb 0 count then commit else pure tt
  pure count

-- `label or "Book online"`
abbrev pub label_text : Option String → String
label_text none = "Book online"
label_text (some String.[]) = "Book online"
label_text (some (String.◌∷◌ c rest)) = String.◌∷◌ c rest

unfoldable pub enqueue_external_booking_link_sms :
    Env → Business → String → String → Option String → Action NotificationOutbox
enqueue_external_booking_link_sms env business caller_phone url label =
    insert_intent env business.tenant_id business.id none NotificationPurpose.external_booking_link
      caller_phone (label_text label ++ ": " ++ url)
