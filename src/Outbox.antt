-- ===== src/Outbox.antt =====
-- app/services/notification_service.py: the rows that the services put into the SMS outbox.
pub mod Delivery
pub mod Fate
pub mod Reminders
use Prim.Native.String.{◌++◌}
use appointment_voice_saas.Common.{ℕ, String, Option, none, some, List, [], ◌∷◌}
use appointment_voice_saas.Tables.{
  Db, Business, Customer, Service, Booking, WaitlistEntry, NotificationOutbox, NotificationPurpose,
  NotificationStatus,
}
use appointment_voice_saas.Session.{
  Action, send_notification, pure, modify, fresh_id, enqueue_job, ◌>>=◌, ◌>>◌,
}
use appointment_voice_saas.Env.{Env}
use appointment_voice_saas.PublicLinks.{build_public_management_url}

abbrev pub add_intent : NotificationOutbox → Db → Db
add_intent row db = record db { outbox = row ∷ db.outbox }

-- A new NotificationOutbox row, with the columns' defaults, added and flushed.
unfoldable pub insert_intent :
    Env → ℕ → ℕ → Option ℕ → NotificationPurpose → String → String → Action NotificationOutbox
insert_intent env tenant_id business_id booking_id purpose recipient_phone body = do
  id ← fresh_id
  let row : NotificationOutbox = record {
    id = id;
    tenant_id = tenant_id;
    business_id = business_id;
    booking_id = booking_id;
    purpose = purpose;
    recipient_phone = recipient_phone;
    body = body;
    status = NotificationStatus.pending;
    attempts = 0;
    last_error = none;
    provider_message_id = none;
    created_at = env.now;
    sent_at = none;
    reconciled_at = none;
  }
  modify (add_intent row)
  pure row

-- `if business.owner_notification_phone:` A missing or empty phone gets no message.
abbrev pub owner_intent :
    Env → Booking → NotificationPurpose → Option String → String → Action (List NotificationOutbox)
owner_intent env booking purpose none body = pure []
owner_intent env booking purpose (some String.[]) body = pure []
owner_intent env booking purpose (some (String.◌∷◌ c rest)) body = do
  intent ←
      insert_intent env booking.tenant_id booking.business_id (some booking.id) purpose
        (String.◌∷◌ c rest) body
  pure (intent ∷ [])

abbrev pub manage_suffix : Option String → String
manage_suffix none = ""
manage_suffix (some url) = " Manage: " ++ url

unfoldable pub enqueue_booking_confirmation :
    Env → Booking → Business → Customer → Service → Action (List NotificationOutbox)
enqueue_booking_confirmation env booking business customer service = do
  let when = env.format_local_time business.timezone booking.starts_at
  intent ←
      insert_intent env booking.tenant_id booking.business_id (some booking.id)
        NotificationPurpose.booking_confirmation customer.phone
        ("Your "
          ++ service.name
          ++ " appointment at "
          ++ business.name
          ++ " is confirmed for "
          ++ when
          ++ "."
          ++ manage_suffix (build_public_management_url env booking.id))
  to_owner ←
      owner_intent env booking NotificationPurpose.booking_confirmation
        business.owner_notification_phone
        ("New booking: " ++ service.name ++ " for " ++ customer.phone ++ " on " ++ when ++ ".")
  pure (intent ∷ to_owner)

unfoldable pub enqueue_booking_cancellation :
    Env → Booking → Business → Customer → Service → Action (List NotificationOutbox)
enqueue_booking_cancellation env booking business customer service = do
  let when = env.format_local_time business.timezone booking.starts_at
  intent ←
      insert_intent env booking.tenant_id booking.business_id (some booking.id)
        NotificationPurpose.booking_cancellation customer.phone
        ("Your " ++ service.name ++ " appointment at " ++ business.name ++ " on " ++ when
          ++ " has been cancelled.")
  to_owner ←
      owner_intent env booking NotificationPurpose.booking_cancellation
        business.owner_notification_phone
        ("Booking cancelled: " ++ service.name ++ " for " ++ customer.phone ++ " on " ++ when
          ++ ".")
  pure (intent ∷ to_owner)

unfoldable pub enqueue_waitlist_offer :
    Env → WaitlistEntry → Business → Customer → Service → Action NotificationOutbox
enqueue_waitlist_offer env entry business customer service =
    insert_intent env entry.tenant_id entry.business_id none NotificationPurpose.waitlist_offer
      customer.phone
      ("Good news! A "
        ++ service.name
        ++ " slot opened up at "
        ++ business.name
        ++ " on "
        ++ env.format_date entry.desired_date
        ++ ". Call us to book it.")

unfoldable pub enqueue_send_notification_job : ℕ → Action (Unit {0})
enqueue_send_notification_job notification_id = enqueue_job (send_notification notification_id)

-- `for notification_id in ...: enqueue_send_notification_job(notification_id)`
unfoldable pub enqueue_all : List NotificationOutbox → Action (Unit {0})
unfolding enqueue_send_notification_job
enqueue_all [] = pure tt
enqueue_all (intent ∷ rest) = do enqueue_send_notification_job intent.id; enqueue_all rest
