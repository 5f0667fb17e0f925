-- ===== src/Outbox/Delivery.antt =====
-- app/services/notification_service.py: `send_notification_in_worker`, which a job of the worker
-- runs. The SMS provider (app/core/sms.py) is an argument: what it answers to a phone and a text.
use appointment_voice_saas.Common.{
  ℕ, ◌+◌, String, Option, none, some, Bool, true, false, ◌==◌, leb, find_by, update_where,
  if◌then◌else◌,
}
use appointment_voice_saas.Tables.{Db, NotificationOutbox, NotificationStatus}
use appointment_voice_saas.Errors.{sms_delivery_error}
use appointment_voice_saas.Session.{Action, pure, raise, query, modify, commit, ◌>>=◌, ◌>>◌}
use appointment_voice_saas.Env.{Env}

pub record SmsSendResult : Type 0 where
  pub success : Bool
  pub provider_message_id : Option String
  pub error : Option String

abbrev pub SmsProvider : Type 0
SmsProvider = String → String → SmsSendResult

abbrev pub max_notification_attempts : ℕ
max_notification_attempts = 3

abbrev pub notification_is_pending : NotificationStatus → Bool
notification_is_pending NotificationStatus.pending = true
notification_is_pending NotificationStatus.sent = false
notification_is_pending NotificationStatus.failed = false

abbrev pub is_notification : ℕ → NotificationOutbox → Bool
is_notification notification_id n = n.id == notification_id

-- UPDATE notification_outbox SET ... WHERE id = ...
abbrev pub update_notification : ℕ → (NotificationOutbox → NotificationOutbox) → Db → Db
update_notification notification_id change db = record db {
  outbox = update_where (is_notification notification_id) change db.outbox;
}

abbrev pub sent_row : Env → SmsSendResult → NotificationOutbox → NotificationOutbox
sent_row env result n = record n {
  attempts = n.attempts + 1;
  status = NotificationStatus.sent;
  sent_at = some env.now;
  provider_message_id = result.provider_message_id;
}

abbrev pub is_last_attempt : NotificationOutbox → Bool
is_last_attempt n = leb max_notification_attempts (n.attempts + 1)

abbrev pub unsent_row : SmsSendResult → NotificationOutbox → NotificationOutbox
unsent_row result n = record n {
  attempts = n.attempts + 1;
  last_error = result.error;
  status = if is_last_attempt n then NotificationStatus.failed else n.status;
}

-- From the provider's answer on.
unfoldable pub record_result : Env → NotificationOutbox → SmsSendResult → Action (Unit {0})
record_result env intent result =
    if result.success
    then modify (update_notification intent.id (sent_row env result)) >> commit
    else (modify (update_notification intent.id (unsent_row result))
        >> commit
        >> (if is_last_attempt intent then pure tt else raise (sms_delivery_error result.error)))

unfoldable pub deliver : Env → SmsProvider → Option NotificationOutbox → Action (Unit {0})
deliver env sms_provider none = pure tt
deliver env sms_provider (some intent) =
    if notification_is_pending intent.status
    then record_result env intent (sms_provider intent.recipient_phone intent.body)
    else pure tt

unfoldable pub send_notification_in_worker : Env → SmsProvider → ℕ → Action (Unit {0})
send_notification_in_worker env sms_provider notification_id = do
  intent ← query (λ db. find_by (is_notification notification_id) db.outbox)
  deliver env sms_provider intent
