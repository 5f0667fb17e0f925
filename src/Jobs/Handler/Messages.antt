-- ===== src/Jobs/Handler/Messages.antt =====
-- A job for a message, from the queue's side: how it ends tells what has become of the message.
use appointment_voice_saas.Common.{ℕ, String, some, ◌≡◌, refl, if◌then◌else◌, Bool-cases, inl, inr}
use appointment_voice_saas.Tables.{NotificationOutbox, NotificationStatus}
use appointment_voice_saas.Errors.{Result, ok, err, sms_delivery_error}
use appointment_voice_saas.Session.{Session, pure, ◌>>=◌}
use appointment_voice_saas.Env.{Env}
use appointment_voice_saas.Outbox.Delivery.{
  SmsSendResult, SmsProvider, notification_is_pending, is_last_attempt, record_result, deliver,
  send_notification_in_worker,
}
use appointment_voice_saas.Outbox.Fate.{
  Fate, waiting, given_up, delivered, next_fate, fate_by, Stands,
  Stands-send_notification_in_worker,
}
use appointment_voice_saas.Jobs.Job.{Job}
use appointment_voice_saas.Jobs.Handler.{Services, handle_job}

-- The job fails as long as the message waits for another try.
abbrev pub ends_as : SmsSendResult → Fate → Result (Unit {0})
ends_as result (waiting n) = err (sms_delivery_error result.error)
ends_as result (given_up n) = ok tt
ends_as result (delivered n message_id) = ok tt

module _ (env : Env) (row : NotificationOutbox) (result : SmsSendResult) (s : Session) where
  record_result_ends :
      (record_result env row result s).0 ≡ ends_as result (next_fate result (waiting row.attempts))
  unfolding record_result ◌>>=◌
  record_result_ends = elim (Bool-cases result.success) [
    | inl sent ↦ rw sent
    | inr unsent ↦
        rw unsent
          (elim (Bool-cases (is_last_attempt row)) [ inl last ↦ rw last | inr more ↦ rw more ])
  ]

  by_status :
      (status : NotificationStatus)
      → ((if notification_is_pending status then record_result env row result else pure tt) s).0
        ≡ ends_as result (next_fate result (fate_by status row))
  unfolding ◌>>=◌
  by_status NotificationStatus.pending = record_result_ends
  by_status NotificationStatus.sent = refl
  by_status NotificationStatus.failed = refl

send_ends :
    (env : Env) (sms_provider : SmsProvider) (i : ℕ) (phone body : String) (fate : Fate)
    (s : Session)
    → Stands i phone body fate s.db
    → (send_notification_in_worker env sms_provider i s).0
      ≡ ends_as (sms_provider phone body) (next_fate (sms_provider phone body) fate)
unfolding send_notification_in_worker deliver ◌>>=◌
send_ends env sms_provider i phone body fate s h =
    rw (h.found, ← h.its_phone, ← h.its_body, ← h.its_fate)
      (by_status env h.row (sms_provider h.row.recipient_phone h.row.body) s h.row.status)

-- A job for a message that is in the outbox: the message is tried if it was waiting, and only then;
-- the job fails, so that the queue tries it again, exactly if the message is still waiting after it.
pub handle_job-Stands :
    (env : Env) (services : Services) (job : Job) (i : ℕ) (phone body : String) (fate : Fate)
    (s : Session)
    → job.type ≡ "send_notification"
    → services.payload_number job.payload "notification_id" ≡ some i
    → Stands i phone body fate s.committed
    → let answer = services.sms_provider phone body in
      ((handle_job env services job s).0 ≡ ends_as answer (next_fate answer fate))
      × Stands i phone body (next_fate answer fate) (handle_job env services job s).1.committed
unfolding handle_job
handle_job-Stands env services job i phone body fate s type payload h =
    let opened : Session = record s { db = s.committed } in
    rw (type, payload)
      (
        send_ends env services.sms_provider i phone body fate opened h,
        Stands-send_notification_in_worker env services.sms_provider i phone body fate opened refl
            h,
      )
