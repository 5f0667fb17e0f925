-- ===== src/Jobs/Handler.antt =====
-- app/worker.py: `handle_job`, which gives a job to the service of its type. The two services that
-- are not modelled (password reset mails and upload checks) are arguments, and so is the reading of
-- a number out of a JSON payload.
pub mod Messages
use appointment_voice_saas.Common.{
  ℕ, String, Option, none, some, Bool, true, false, same_text, if◌then◌else◌,
}
use appointment_voice_saas.Errors.{Error, Result, ok, err, key_error, unknown_job_type}
use appointment_voice_saas.Session.{Session, Action, raise}
use appointment_voice_saas.Env.{Env}
use appointment_voice_saas.Outbox.Delivery.{SmsProvider, send_notification_in_worker}
use appointment_voice_saas.Calendar.Workers.{
  CalendarProvider, sync_calendar_event_in_worker, cancel_calendar_event_in_worker,
}
use appointment_voice_saas.Jobs.Job.{Job}
use appointment_voice_saas.Jobs.Worker.{Handled, done, unknown_type, failure}

pub record Services : Type 0 where
  pub sms_provider : SmsProvider
  pub calendar_provider : CalendarProvider
  -- job.payload[key]
  pub payload_number : String → String → Option ℕ
  pub create_password_reset_token_and_send_email : ℕ → ℕ → Action (Unit {0})
  pub verify_presigned_upload_in_worker : ℕ → Action (Unit {0})
  -- str(exc)
  pub text_of_error : Error → String

-- db = SessionLocal(); try: ... finally: db.close()
abbrev pub in_new_session : Action (Unit {0}) → Action (Unit {0})
in_new_session m s =
    let (r, t) = m (record s { db = s.committed }) in (r, record t { db = t.committed })

abbrev pub with_number : Option ℕ → String → (ℕ → Action (Unit {0})) → Action (Unit {0})
with_number none key handler = raise (key_error key)
with_number (some n) key handler = in_new_session (handler n)

abbrev pub given : Services → Job → String → (ℕ → Action (Unit {0})) → Action (Unit {0})
given services job key handler = with_number (services.payload_number job.payload key) key handler

unfoldable pub handle_job : Env → Services → Job → Action (Unit {0})
handle_job env services job =
    if same_text job.type "send_password_reset_email"
    then given services job "user_id"
        (λ user_id. services.create_password_reset_token_and_send_email user_id job.id)
    else if same_text job.type "send_notification"
    then given services job "notification_id"
        (λ notification_id. send_notification_in_worker env services.sms_provider notification_id)
    else if same_text job.type "verify_presigned_upload"
    then given services job "uploaded_file_id"
        (λ uploaded_file_id. services.verify_presigned_upload_in_worker uploaded_file_id)
    else if same_text job.type "sync_calendar_event"
    then given services job "event_id"
        (λ event_id. sync_calendar_event_in_worker env services.calendar_provider event_id)
    else if same_text job.type "cancel_calendar_event"
    then given services job "event_id"
        (λ event_id. cancel_calendar_event_in_worker env services.calendar_provider event_id)
    else raise (unknown_job_type job.type)

-- How `process_next_job` takes what `handle_job` has done.
abbrev pub handled_as : Services → Result (Unit {0}) → Handled
handled_as services (ok u) = done
handled_as services (err (unknown_job_type type)) =
    unknown_type (services.text_of_error (unknown_job_type type))
handled_as services (err e) = failure (services.text_of_error e)
