-- ===== src/Jobs/Worker.antt =====
-- app/worker.py: `process_next_job`. What `handle_job` does with a job is an argument.
use appointment_voice_saas.Common.{
  ℕ, String, Option, none, some, List, [], ◌∷◌, Bool, true, false, ltb, if◌then◌else◌,
}
use appointment_voice_saas.Jobs.Job.{Job}
use appointment_voice_saas.Jobs.Redis.{Redis}
use appointment_voice_saas.Jobs.Queue.{
  Settings, dequeue_job, ack_job, schedule_retry, move_job_to_failed_queue,
}

-- How `handle_job` ends: it returns, raises UnknownJobTypeError or raises another exception.
pub data Handled : Type 0 where
  done : Handled
  unknown_type failure : String → Handled

abbrev pub known_job_types : List String
known_job_types =
    "send_password_reset_email" ∷ "send_notification" ∷ "verify_presigned_upload"
    ∷ "sync_calendar_event" ∷ "cancel_calendar_event" ∷ []

abbrev pub found_or_next : Option Job × Redis → (Redis → Option Job × Redis) → Option Job × Redis
found_or_next (some j, r) next = (some j, r)
found_or_next (none, r) next = next r

-- The first job of the queues, in the fixed order of the types.
unfoldable pub dequeue_any : ℕ → List String → Redis → Option Job × Redis
dequeue_any now [] r = (none, r)
dequeue_any now (job_type ∷ types) r =
    let later = dequeue_any now types in found_or_next (dequeue_job now job_type r) later

unfoldable pub settle : Settings → ℕ → Job → Handled → Redis → Redis
settle settings now j done r = ack_job j r
settle settings now j (unknown_type message) r = (move_job_to_failed_queue now j (some message) r).1
settle settings now j (failure message) r =
    if ltb j.attempts settings.max_retries
    then (schedule_retry settings now j message r).1
    else (move_job_to_failed_queue now j (some message) r).1

abbrev pub finish : Settings → (Job → Handled) → ℕ → Option Job × Redis → Bool × Redis
finish settings handle_job now (none, r) = (false, r)
finish settings handle_job now (some j, r) = (true, settle settings now j (handle_job j) r)

unfoldable pub process_next_job : Settings → (Job → Handled) → ℕ → Redis → Bool × Redis
process_next_job settings handle_job now r =
    finish settings handle_job now (dequeue_any now known_job_types r)
