-- ===== src/Tests/Queues.antt =====
-- The theorems on jobs, in a queue of two.
use appointment_voice_saas.Common.{◌+◌, ◌≤◌, ◌≡◌, none, [], ◌∷◌, arith}
use appointment_voice_saas.Jobs.Job.{Job}
use appointment_voice_saas.Jobs.Redis.{Redis}
use appointment_voice_saas.Jobs.Queue.{
  Settings, promote_delayed_jobs, reclaim_stale_processing_jobs, requeue_failed_jobs,
  calculate_retry_delay_seconds,
}
use appointment_voice_saas.Jobs.Worker.{failure, known_job_types, dequeue_any, process_next_job}
use appointment_voice_saas.Jobs.Conservation.{copies, copies-maintenance}
use appointment_voice_saas.Jobs.Round.{completed, copies-process_next_job}
use appointment_voice_saas.Jobs.Backoff.{calculate_retry_delay_seconds-bounds}

abbrev settings : Settings
settings = record {
  max_retries = 3;
  retry_backoff_base_seconds = 5;
  retry_backoff_max_seconds = 300;
  visibility_timeout_seconds = 300;
}

abbrev message : Job
message = record {
  id = 1;
  type = "send_notification";
  payload = "{}";
  attempts = 0;
  request_id = none;
  last_error = none;
  failed_at = none;
  processing_started_at = none;
}

abbrev redis : Redis
redis = record {
  ready = ("send_notification", message) ∷ [];
  processing = record message { id = 2 } ∷ [];
  delayed = (record message { id = 3; attempts = 1 }, 50) ∷ [];
  failed = record message { id = 4; attempts = 3 } ∷ [];
}

-- The third job waits among the delayed ones, and is due.
copies-maintenance_example :
    (copies 3 (promote_delayed_jobs 60 none redis).1 ≡ 1)
    × (copies 3 (reclaim_stale_processing_jobs settings 60 redis).1 ≡ 1)
    × (copies 3 (requeue_failed_jobs none redis).1 ≡ 1)
copies-maintenance_example = copies-maintenance settings 60 none 3 redis

-- The message's delivery fails.
copies-process_next_job_example :
    copies 1 (process_next_job settings (λ j. failure "no network") 60 redis).1
      + completed 1 (λ j. failure "no network") (dequeue_any 60 known_job_types redis).0
    ≡ 1
copies-process_next_job_example =
    copies-process_next_job settings (λ j. failure "no network") 60 1 redis (omega arith)

calculate_retry_delay_seconds-bounds_example :
    (5 ≤ calculate_retry_delay_seconds settings 2)
    × (calculate_retry_delay_seconds settings 2 ≤ 300)
    × (calculate_retry_delay_seconds settings 2 ≤ calculate_retry_delay_seconds settings 3)
calculate_retry_delay_seconds-bounds_example =
    calculate_retry_delay_seconds-bounds settings 2 (omega arith)
