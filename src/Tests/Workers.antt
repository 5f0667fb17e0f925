-- ===== src/Tests/Workers.antt =====
-- The workers and the sweeps, on one message and one calendar event of the small salon.
use appointment_voice_saas.Common.{none, some, List, [], ◌∷◌, true, false, ◌≡◌, refl, arith}
use appointment_voice_saas.Tables.{
  Db, NotificationOutbox, NotificationPurpose, NotificationStatus, CalendarEvent,
  CalendarSyncStatus, WaitlistEntry, WaitlistEntryStatus,
}
use appointment_voice_saas.Errors.{ok}
use appointment_voice_saas.Session.{Session, pure, send_notification, sync_calendar_event}
use appointment_voice_saas.Outbox.Delivery.{SmsProvider}
use appointment_voice_saas.Outbox.Fate as Fate
use appointment_voice_saas.Outbox.Fate.{waiting, delivered, next_fate, Stands, Stands-runs}
use appointment_voice_saas.Outbox.Reminders.{enqueue_due_reminders}
use appointment_voice_saas.Outbox.Reminders.Once.{AtMostOne, enqueue_due_reminders-AtMostOne}
use appointment_voice_saas.Calendar.Workers.{CalendarProvider}
use appointment_voice_saas.Calendar.Stages.{stage, Reach}
use appointment_voice_saas.Calendar.Moves.{Follows}
use appointment_voice_saas.Calendar.Runs.{Run, sync, cancel, Sound, runs-Reach, runs-IsSound}
use appointment_voice_saas.Calendar.Runs as Runs
use appointment_voice_saas.Jobs.Job.{Job}
use appointment_voice_saas.Jobs.Handler.{Services, handle_job}
use appointment_voice_saas.Jobs.Handler.Messages.{ends_as, handle_job-Stands}
use appointment_voice_saas.Reconciliation.{
  reconcile_stale_notifications, reconcile_stale_calendar_events,
}
use appointment_voice_saas.Reconciliation.Sweep.{notifications_swept, events_swept, sweeps_lem}
use appointment_voice_saas.Reconciliation.Windows.{QueuedOnce, sweeps-QueuedOnce}
use appointment_voice_saas.Waitlist.Expiry.{expire_stale_waitlist_offers}
use appointment_voice_saas.Waitlist.Expiry.Offers.{
  SweepOutcome, expire_stale_waitlist_offers-SweepOutcome,
}
use appointment_voice_saas.Tests.Samples.{env, session, tables, at, bob_waits}

abbrev message : NotificationOutbox
message = record {
  id = 7;
  tenant_id = 1;
  business_id = 1;
  booking_id = some 1;
  purpose = NotificationPurpose.booking_confirmation;
  recipient_phone = "+48200";
  body = "Confirmed.";
  status = NotificationStatus.pending;
  attempts = 0;
  last_error = none;
  provider_message_id = none;
  created_at = 0;
  sent_at = none;
  reconciled_at = none;
}

abbrev event : CalendarEvent
event = record {
  id = 5;
  tenant_id = 1;
  business_id = 1;
  booking_id = 1;
  provider = "null";
  provider_event_id = none;
  status = CalendarSyncStatus.pending;
  attempts = 0;
  cancel_attempts = 0;
  last_error = none;
  created_at = 0;
  synced_at = none;
  reconciled_at = none;
}

abbrev at_work : Db
at_work = record tables { outbox = message ∷ []; calendar_events = event ∷ [] }

abbrev working : Session
working = record session { db = at_work; committed = at_work }

abbrev down : SmsProvider
down = λ phone body. record { success = false; provider_message_id = none; error = some "down" }

abbrev up : SmsProvider
up = λ phone body. record { success = true; provider_message_id = some "m1"; error = none }

-- The provider fails once, and then takes the message.
Stands-runs_example :
    Stands 7 "+48200" "Confirmed."
      (delivered 2 (some "m1"))
      (Fate.runs env 7 (down ∷ up ∷ up ∷ []) working).committed
Stands-runs_example =
    Stands-runs env 7 (down ∷ up ∷ up ∷ []) "+48200" "Confirmed." (waiting 0) working refl
      (record { row = message; found = refl; its_phone = refl; its_body = refl; its_fate = refl })

-- Ann's booking at ten is due, and has no reminder yet.
enqueue_due_reminders-AtMostOne_example :
    AtMostOne 1 (enqueue_due_reminders env working).1.db
    × AtMostOne 1 (enqueue_due_reminders env working).1.committed
enqueue_due_reminders-AtMostOne_example =
    enqueue_due_reminders-AtMostOne env 1 working (omega arith) (omega arith)

abbrev refusing : CalendarProvider
refusing = record {
  create_event = λ payload. record { success = true; provider_event_id = some "e1"; error = none };
  cancel_event =
      λ event_id. record { success = false; provider_event_id = none; error = some "down" };
}

-- The event is written, and then the provider refuses four times to withdraw it.
abbrev five_runs : List Run
five_runs =
    sync refusing ∷ cancel refusing ∷ cancel refusing ∷ cancel refusing ∷ cancel refusing ∷ []

runs-Reach_example :
    Follows
      (Reach 3)
      5
      (stage CalendarSyncStatus.pending 0 0)
      (Runs.runs env 5 five_runs working).committed
runs-Reach_example = runs-Reach env 5 five_runs working event refl refl

runs-IsSound_example : Sound env 5 (Runs.runs env 5 five_runs working).committed
runs-IsSound_example = runs-IsSound env 5 five_runs working event (omega arith) refl refl refl

sweeps_lem_example :
    (reconcile_stale_notifications env none working
      ≡ (ok 1, notifications_swept env (at 8 0) working))
    × (reconcile_stale_calendar_events env none working ≡ (ok 1, events_swept env (at 8 0) working))
sweeps_lem_example = sweeps_lem env none working refl

-- A sweep at eight, and one a quarter of an hour later.
sweeps-QueuedOnce_example :
    (let between = (reconcile_stale_notifications env (some (at 8 0)) working).1 in
      QueuedOnce send_notification [] between.queued
        (reconcile_stale_notifications env (some (at 8 15)) between).1.queued)
    × (let between = (reconcile_stale_calendar_events env (some (at 8 0)) working).1 in
        QueuedOnce sync_calendar_event [] between.queued
          (reconcile_stale_calendar_events env (some (at 8 15)) between).1.queued)
sweeps-QueuedOnce_example = sweeps-QueuedOnce env (at 8 0) (at 8 15) working refl refl (omega arith)

-- Ann was offered a slot at midnight and has not answered; Bob waits for it.
abbrev offered_to_ann : WaitlistEntry
offered_to_ann = record bob_waits { id = 2; customer_id = 1; status = WaitlistEntryStatus.offered }

abbrev two_wait : Db
two_wait = record tables { waitlist = offered_to_ann ∷ bob_waits ∷ [] }

abbrev offering : Session
offering = record session { db = two_wait; committed = two_wait }

expire_stale_waitlist_offers-SweepOutcome_example :
    SweepOutcome 1 offering (expire_stale_waitlist_offers env offering)
expire_stale_waitlist_offers-SweepOutcome_example =
    expire_stale_waitlist_offers-SweepOutcome env offering refl

abbrev services : Services
services = record {
  sms_provider = down;
  calendar_provider = refusing;
  payload_number = λ payload key. some 7;
  create_password_reset_token_and_send_email = λ user_id job_id. pure tt;
  verify_presigned_upload_in_worker = λ uploaded_file_id. pure tt;
  text_of_error = λ e. "";
}

abbrev job : Job
job = record {
  id = 3;
  type = "send_notification";
  payload = "{\"notification_id\": 7}";
  attempts = 0;
  request_id = none;
  last_error = none;
  failed_at = none;
  processing_started_at = none;
}

-- The provider is down, so the message waits on and the job fails.
handle_job-Stands_example :
    let answer = down "+48200" "Confirmed." in
    ((handle_job env services job working).0 ≡ ends_as answer (next_fate answer (waiting 0)))
    × Stands 7 "+48200" "Confirmed."
        (next_fate answer (waiting 0))
        (handle_job env services job working).1.committed
handle_job-Stands_example =
    handle_job-Stands env services job 7 "+48200" "Confirmed." (waiting 0) working refl refl
      (record { row = message; found = refl; its_phone = refl; its_body = refl; its_fate = refl })
