-- ===== src/Jobs/Redis.antt =====
-- The Redis commands that app/core/job_queue.py sends, on the four structures it keeps.
use appointment_voice_saas.Common.{
  same_text, ℕ, String, Option, none, some, List, [], ◌∷◌, leb, if◌then◌else◌, filter_by, map,
}
use appointment_voice_saas.Jobs.Job.{Job, same_job}

pub record Redis : Type 0 where
  -- The lists f"{base}:{job_type}", all in one: an entry is a job type and a job, and the list of a
  -- type is the entries of that type. The left end is the head.
  pub ready : List (String × Job)
  pub processing : List Job
  -- The sorted set, by score. Redis orders equal scores by text, the model by age.
  pub delayed : List (Job × ℕ)
  pub failed : List Job

-- The entry itself, unless a later one is of the type.
abbrev pub last_of :
    String
    → String
    → Job
    → List (String × Job)
    → Option (Job × List (String × Job))
    → Option (Job × List (String × Job))
last_of job_type t j rest none = if same_text t job_type then some (j, rest) else none
last_of job_type t j rest (some (k, others)) = some (k, (t, j) ∷ others)

-- The last entry of a list, for RPOP: with it, what is left.
abbrev pub take_last : String → List (String × Job) → Option (Job × List (String × Job))
take_last job_type [] = none
take_last job_type ((t, j) ∷ rest) = last_of job_type t j rest (take_last job_type rest)

-- LREM list 1 job
abbrev pub lrem : Job → List Job → List Job
lrem j [] = []
lrem j (x ∷ xs) = let rest = lrem j xs in if same_job x j then xs else x ∷ rest

-- ZREM of one member, and the members of a sorted set beside it.
abbrev pub zrem : Job → List (Job × ℕ) → List (Job × ℕ)
zrem j [] = []
zrem j ((x, score) ∷ rest) =
    let others = zrem j rest in if same_job x j then rest else (x, score) ∷ others

abbrev pub insert_scored : Job → ℕ → List (Job × ℕ) → List (Job × ℕ)
insert_scored j score [] = (j, score) ∷ []
insert_scored j score ((x, other) ∷ rest) =
    let later = insert_scored j score rest in
    if leb other score then (x, other) ∷ later else (j, score) ∷ (x, other) ∷ rest

-- ZADD: a member that is there already gets the new score.
abbrev pub zadd : Job → ℕ → List (Job × ℕ) → List (Job × ℕ)
zadd j score members = insert_scored j score (zrem j members)

-- ZRANGEBYSCORE members 0 now
abbrev pub zrange_until : ℕ → List (Job × ℕ) → List Job
zrange_until now members =
    map (λ (m : Job × ℕ). m.0) (filter_by (λ (m : Job × ℕ). leb m.1 now) members)
