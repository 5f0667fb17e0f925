-- ===== src/Jobs/Queue.antt =====
-- app/core/job_queue.py: the operations on the queues.
use appointment_voice_saas.Common.{
  ℕ, zero, suc, ◌+◌, ◌*◌, ◌^◌, min, String, Option, none, some, List, [], ◌∷◌, Bool, true, false,
  leb, ◌&&◌, any_of, if◌then◌else◌, length,
}
use appointment_voice_saas.Jobs.Job.{
  Job, same_job, with_processing_started_at, without_processing_started_at, with_next_attempt,
  with_error, with_failed_at,
}
use appointment_voice_saas.Jobs.Redis.{Redis, take_last, lrem, zrem, zadd, zrange_until}

-- The worker's settings.
pub record Settings : Type 0 where
  pub max_retries : ℕ
  pub retry_backoff_base_seconds : ℕ
  pub retry_backoff_max_seconds : ℕ
  pub visibility_timeout_seconds : ℕ

abbrev pub seconds : ℕ → ℕ
seconds n = n * 1000000

unfoldable pub calculate_retry_delay_seconds : Settings → ℕ → ℕ
calculate_retry_delay_seconds settings zero = settings.retry_backoff_base_seconds
calculate_retry_delay_seconds settings (suc n) =
    min (settings.retry_backoff_base_seconds * 2 ^ n) settings.retry_backoff_max_seconds

-- LPUSH onto the list of a job type
abbrev pub lpush : String → Job → Redis → Redis
lpush job_type j r = record r { ready = (job_type, j) ∷ r.ready }

abbrev pub started : ℕ → Redis → Option (Job × List (String × Job)) → Option Job × Redis
started now r none = (none, r)
started now r (some (raw, rest)) =
    let j = with_processing_started_at now raw in
    if same_job j raw
    then (some j, record r { ready = rest; processing = raw ∷ r.processing })
    else (some j, record r { ready = rest; processing = j ∷ lrem raw (raw ∷ r.processing) })

-- BRPOPLPUSH from the list of a type to the jobs in processing, and the start's timestamp.
unfoldable pub dequeue_job : ℕ → String → Redis → Option Job × Redis
dequeue_job now job_type r = started now r (take_last job_type r.ready)

unfoldable pub ack_job : Job → Redis → Redis
ack_job j r = record r { processing = lrem j r.processing }

unfoldable pub schedule_retry : Settings → ℕ → Job → String → Redis → Job × Redis
schedule_retry settings now j error r =
    let retried = with_error error (with_next_attempt j) in
    let available_at = now + seconds (calculate_retry_delay_seconds settings retried.attempts) in
    (
      retried,
      record r { processing = lrem j r.processing; delayed = zadd retried available_at r.delayed },
    )

abbrev pub reached : Option ℕ → ℕ → Bool
reached none n = false
reached (some limit) n = leb limit n

-- The loop over the due jobs, with the number promoted so far.
unfoldable pub promote_each : Option ℕ → List Job → ℕ → Redis → ℕ × Redis
promote_each limit [] promoted_count r = (promoted_count, r)
promote_each limit (j ∷ rest) promoted_count r =
    let moved = lpush j.type j (record r { delayed = zrem j r.delayed }) in
    let present = any_of (λ (m : Job × ℕ). same_job m.0 j) r.delayed in
    let on_moved = promote_each limit rest (promoted_count + 1) moved in
    let on_missing = promote_each limit rest promoted_count r in
    if reached limit promoted_count
    then (promoted_count, r)
    else if present
    then on_moved
    else on_missing

unfoldable pub promote_delayed_jobs : ℕ → Option ℕ → Redis → ℕ × Redis
promote_delayed_jobs now limit r = promote_each limit (zrange_until now r.delayed) 0 r

abbrev pub is_stale : Settings → ℕ → Option ℕ → Bool
is_stale settings now none = true
is_stale settings now (some started_at) =
    leb (started_at + seconds settings.visibility_timeout_seconds) now

-- The loop over the jobs that were in processing when it began.
unfoldable pub reclaim_each : Settings → ℕ → List Job → ℕ → Redis → ℕ × Redis
reclaim_each settings now [] reclaimed_count r = (reclaimed_count, r)
reclaim_each settings now (j ∷ rest) reclaimed_count r =
    let moved =
      lpush j.type (without_processing_started_at j)
        (record r { processing = lrem j r.processing }) in
    let present = any_of (λ (x : Job). same_job x j) r.processing in
    let on_moved = reclaim_each settings now rest (reclaimed_count + 1) moved in
    let on_left = reclaim_each settings now rest reclaimed_count r in
    if is_stale settings now j.processing_started_at && present then on_moved else on_left

unfoldable pub reclaim_stale_processing_jobs : Settings → ℕ → Redis → ℕ × Redis
reclaim_stale_processing_jobs settings now r = reclaim_each settings now r.processing 0 r

-- The error of a failed job: the one given, or else the last one.
abbrev pub with_last_error : Option String → Option String → Job → Job
with_last_error (some error) last j = with_error error j
with_last_error none (some last) j = with_error last j
with_last_error none none j = j

unfoldable pub move_job_to_failed_queue : ℕ → Job → Option String → Redis → Job × Redis
move_job_to_failed_queue now j error r =
    let failed_job = with_last_error error j.last_error (with_failed_at now j) in
    (failed_job, record r { processing = lrem j r.processing; failed = failed_job ∷ r.failed })

-- RPOP of the failed jobs
abbrev pub drop_last : Job → List Job → List Job
drop_last j [] = []
drop_last j (k ∷ rest) = j ∷ drop_last k rest

abbrev pub last_job : Job → List Job → Job
last_job j [] = j
last_job j (k ∷ rest) = last_job k rest

abbrev pub requeue_next : Option ℕ → ℕ → Redis → List Job → (Redis → ℕ × Redis) → ℕ × Redis
requeue_next limit requeued_count r [] next = (requeued_count, r)
requeue_next limit requeued_count r (k ∷ rest) next =
    let j = last_job k rest in
    let moved = lpush j.type j (record r { failed = drop_last k rest }) in
    let later = next moved in if reached limit requeued_count then (requeued_count, r) else later

-- `while limit is None or requeued_count < limit`, with one round for each failed job.
unfoldable pub requeue_each : ℕ → Option ℕ → ℕ → Redis → ℕ × Redis
requeue_each zero limit requeued_count r = (requeued_count, r)
requeue_each (suc rounds) limit requeued_count r =
    requeue_next limit requeued_count r r.failed
      (λ moved. requeue_each rounds limit (requeued_count + 1) moved)

unfoldable pub requeue_failed_jobs : Option ℕ → Redis → ℕ × Redis
requeue_failed_jobs limit r = requeue_each (length r.failed) limit 0 r
