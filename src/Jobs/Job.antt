-- ===== src/Jobs/Job.antt =====
-- app/core/job_queue.py: `Job`. A raw job in Redis is its JSON text, which `from_json` reads back;
-- two raw jobs are equal if all fields are. The id, a UUID, is its number; instants are
-- microseconds since the epoch; the payload is its JSON text.
use appointment_voice_saas.Common.{
  same_text, same_text_refl, prefix_of, ℕ, ◌+◌, String, Option, none, some, Bool, true, false, ◌&&◌,
  ◌==◌, ◌≡◌, refl, ==_iff, arith,
}

abbrev pub same_option_text : Option String → Option String → Bool
same_option_text none none = true
same_option_text none (some t) = false
same_option_text (some s) none = false
same_option_text (some s) (some t) = same_text s t

abbrev pub same_option : Option ℕ → Option ℕ → Bool
same_option none none = true
same_option none (some b) = false
same_option (some a) none = false
same_option (some a) (some b) = a == b

pub record Job : Type 0 where
  pub id : ℕ
  pub type : String
  pub payload : String
  pub attempts : ℕ
  pub request_id : Option String
  pub last_error : Option String
  pub failed_at : Option ℕ
  pub processing_started_at : Option ℕ

-- a.to_json() == b.to_json()
abbrev pub same_job : Job → Job → Bool
same_job a b =
    a.id == b.id
    && same_text a.type b.type
    && same_text a.payload b.payload
    && a.attempts == b.attempts
    && same_option_text a.request_id b.request_id
    && same_option_text a.last_error b.last_error
    && same_option a.failed_at b.failed_at
    && same_option a.processing_started_at b.processing_started_at

abbrev pub with_processing_started_at : ℕ → Job → Job
with_processing_started_at started_at j = record j { processing_started_at = some started_at }

abbrev pub without_processing_started_at : Job → Job
without_processing_started_at j = record j { processing_started_at = none }

abbrev pub with_next_attempt : Job → Job
with_next_attempt j = record j { attempts = j.attempts + 1; processing_started_at = none }

abbrev pub with_error : String → Job → Job
with_error message j = record j { last_error = some (prefix_of 500 message) }

abbrev pub with_failed_at : ℕ → Job → Job
with_failed_at failed_at j = record j { failed_at = some failed_at }

same_option_text_refl : (o : Option String) → same_option_text o o ≡ true
same_option_text_refl none = refl
same_option_text_refl (some s) = same_text_refl s

same_option_refl : (o : Option ℕ) → same_option o o ≡ true
same_option_refl none = refl
same_option_refl (some n) = (==_iff n n).1 refl

pub same_job_refl : (j : Job) → same_job j j ≡ true
same_job_refl j = ground (
  arith,
  same_text_refl j.type,
  same_text_refl j.payload,
  same_option_text_refl j.request_id,
  same_option_text_refl j.last_error,
  same_option_refl j.failed_at,
  same_option_refl j.processing_started_at,
)

pub same_job-id : (a b : Job) → same_job a b ≡ true → a.id ≡ b.id
same_job-id a b h = ground arith
