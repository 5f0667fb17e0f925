-- ===== src/Jobs/Conservation.antt =====
-- The number of copies of a job in the queues of app/core/job_queue.py, under the operations that
-- move whole batches.
use appointment_voice_saas.Common.{
  ℕ, zero, suc, ◌+◌, String, Option, List, [], ◌∷◌, Bool, true, false, ◌≡◌, refl, ◌∙◌, ◌==◌, ◌&&◌,
  any_of, if◌then◌else◌, arith, Bool-cases, inl, inr, ◌⊎◌, length,
}
use appointment_voice_saas.Jobs.Job.{Job, same_job, same_job-id, without_processing_started_at}
use appointment_voice_saas.Jobs.Redis.{Redis, lrem, zrem, zrange_until}
use appointment_voice_saas.Jobs.Queue.{
  Settings, lpush, reached, promote_each, promote_delayed_jobs, is_stale, reclaim_each,
  reclaim_stale_processing_jobs, last_job, drop_last, requeue_next, requeue_each,
  requeue_failed_jobs,
}

-- 1 for a job of the id, and 0 for any other.
abbrev pub one : ℕ → Job → ℕ
one i j = if j.id == i then 1 else 0

abbrev pub count : ℕ → List Job → ℕ
count i [] = 0
count i (j ∷ js) = one i j + count i js

abbrev pub count_ready : ℕ → List (String × Job) → ℕ
count_ready i [] = 0
count_ready i ((t, j) ∷ rest) = one i j + count_ready i rest

abbrev pub count_delayed : ℕ → List (Job × ℕ) → ℕ
count_delayed i [] = 0
count_delayed i ((j, score) ∷ rest) = one i j + count_delayed i rest

-- How many jobs of the id there are, wherever they wait.
abbrev pub copies : ℕ → Redis → ℕ
copies i r =
    count_ready i r.ready + count i r.processing + count_delayed i r.delayed + count i r.failed

pub one-same_job : (i : ℕ) (x j : Job) → same_job x j ≡ true → one i x ≡ one i j
one-same_job i x j h = rw (same_job-id x j h) refl

count-lrem :
    (i : ℕ) (j : Job) (js : List Job)
    → any_of (λ (x : Job). same_job x j) js ≡ true
    → count i js ≡ one i j + count i (lrem j js)
count-lrem i j [] h = cc
count-lrem i j (x ∷ js) h = elim (Bool-cases (same_job x j)) [
  | inl same ↦ rw (same, one-same_job i x j same) refl
  | inr other ↦
      let later : any_of (λ (y : Job). same_job y j) js ≡ true = rw other at h in
      let rest = count-lrem i j js later in rw (other, rest) (omega arith)
]

count_delayed-zrem :
    (i : ℕ) (j : Job) (ms : List (Job × ℕ))
    → any_of (λ (m : Job × ℕ). same_job m.0 j) ms ≡ true
    → count_delayed i ms ≡ one i j + count_delayed i (zrem j ms)
count_delayed-zrem i j [] h = cc
count_delayed-zrem i j ((x, score) ∷ ms) h = elim (Bool-cases (same_job x j)) [
  | inl same ↦ rw (same, one-same_job i x j same) refl
  | inr other ↦
      let later : any_of (λ (m : Job × ℕ). same_job m.0 j) ms ≡ true = rw other at h in
      let rest = count_delayed-zrem i j ms later in rw (other, rest) (omega arith)
]

count-drop_last :
    (i : ℕ) (k : Job) (js : List Job)
    → count i (k ∷ js) ≡ one i (last_job k js) + count i (drop_last k js)
count-drop_last i k [] = refl
count-drop_last i k (j ∷ js) = omega (arith, count-drop_last i j js)

copies-promote_each :
    (limit : Option ℕ) (js : List Job) (n i : ℕ) (r : Redis)
    → copies i (promote_each limit js n r).1 ≡ copies i r
unfolding promote_each
copies-promote_each limit [] n i r = refl
copies-promote_each limit (j ∷ js) n i r =
    pick (reached limit n) (Bool-cases (any_of (λ (m : Job × ℕ). same_job m.0 j) r.delayed))
      (λ m s. copies-promote_each limit js m i s)
  where
    moved : Redis
    moved = lpush j.type j (record r { delayed = zrem j r.delayed })

    pick :
        (t : Bool)
        → (any_of (λ (m : Job × ℕ). same_job m.0 j) r.delayed ≡ true)
          ⊎ (any_of (λ (m : Job × ℕ). same_job m.0 j) r.delayed ≡ false)
        → ((m : ℕ) (s : Redis) → copies i (promote_each limit js m s).1 ≡ copies i s)
        → copies i
            (if t
              then (n, r)
              else if any_of (λ (m : Job × ℕ). same_job m.0 j) r.delayed
              then promote_each limit js (n + 1) moved
              else promote_each limit js n r).1
          ≡ copies i r
    pick true present rest = refl
    pick false (inl there) rest =
        rw there (rest (n + 1) moved ∙ omega (arith, count_delayed-zrem i j r.delayed there))
    pick false (inr gone) rest = rw gone (rest n r)

-- Promoting the due jobs, with or without a limit, neither loses nor doubles a job: of every id
-- there are as many copies as before.
pub copies-promote_delayed_jobs :
    (now : ℕ) (limit : Option ℕ) (i : ℕ) (r : Redis)
    → copies i (promote_delayed_jobs now limit r).1 ≡ copies i r
unfolding promote_delayed_jobs
copies-promote_delayed_jobs now limit i r =
    copies-promote_each limit (zrange_until now r.delayed) 0 i r

copies-reclaim_each :
    (settings : Settings) (now : ℕ) (js : List Job) (n i : ℕ) (r : Redis)
    → copies i (reclaim_each settings now js n r).1 ≡ copies i r
unfolding reclaim_each
copies-reclaim_each settings now [] n i r = refl
copies-reclaim_each settings now (j ∷ js) n i r =
    pick (is_stale settings now j.processing_started_at)
      (Bool-cases (any_of (λ (x : Job). same_job x j) r.processing))
      (λ m s. copies-reclaim_each settings now js m i s)
  where
    moved : Redis
    moved =
        lpush j.type (without_processing_started_at j)
          (record r { processing = lrem j r.processing })

    pick :
        (t : Bool)
        → (any_of (λ (x : Job). same_job x j) r.processing ≡ true)
          ⊎ (any_of (λ (x : Job). same_job x j) r.processing ≡ false)
        → ((m : ℕ) (s : Redis) → copies i (reclaim_each settings now js m s).1 ≡ copies i s)
        → copies i
            (if t && any_of (λ (x : Job). same_job x j) r.processing
              then reclaim_each settings now js (n + 1) moved
              else reclaim_each settings now js n r).1
          ≡ copies i r
    pick false present rest = rest n r
    pick true (inl there) rest =
        rw there (rest (n + 1) moved ∙ omega (arith, count-lrem i j r.processing there))
    pick true (inr gone) rest = rw gone (rest n r)

-- Reclaiming the jobs of workers that have gone silent neither loses nor doubles a job: of every id
-- there are as many copies as before.
pub copies-reclaim_stale_processing_jobs :
    (settings : Settings) (now i : ℕ) (r : Redis)
    → copies i (reclaim_stale_processing_jobs settings now r).1 ≡ copies i r
unfolding reclaim_stale_processing_jobs
copies-reclaim_stale_processing_jobs settings now i r =
    copies-reclaim_each settings now r.processing 0 i r

copies-requeue_next :
    (limit : Option ℕ) (n i : ℕ) (r : Redis) (next : Redis → ℕ × Redis)
    → ((s : Redis) → copies i (next s).1 ≡ copies i s)
    → copies i (requeue_next limit n r r.failed next).1 ≡ copies i r
copies-requeue_next limit n i r next rest = pick r.failed
  where
    pick :
        (failed : List Job)
        → copies i (requeue_next limit n (record r { failed = failed }) failed next).1
          ≡ copies i (record r { failed = failed })
    pick [] = refl
    pick (k ∷ js) = elim (Bool-cases (reached limit n)) [
      | inl over ↦ rw over refl
      | inr more ↦ rw more (
          rest (lpush (last_job k js).type (last_job k js) (record r { failed = drop_last k js }))
          ∙ omega (arith, count-drop_last i k js))
    ]

copies-requeue_each :
    (rounds : ℕ) (limit : Option ℕ) (n i : ℕ) (r : Redis)
    → copies i (requeue_each rounds limit n r).1 ≡ copies i r
unfolding requeue_each
copies-requeue_each zero limit n i r = refl
copies-requeue_each (suc rounds) limit n i r =
    copies-requeue_next limit n i r (λ moved. requeue_each rounds limit (n + 1) moved)
      λ moved. copies-requeue_each rounds limit (n + 1) i moved

-- Requeueing the failed jobs neither loses nor doubles a job: of every id there are as many copies
-- as before.
pub copies-requeue_failed_jobs :
    (limit : Option ℕ) (i : ℕ) (r : Redis) → copies i (requeue_failed_jobs limit r).1 ≡ copies i r
unfolding requeue_failed_jobs
copies-requeue_failed_jobs limit i r = copies-requeue_each (length r.failed) limit 0 i r

-- Promoting the due jobs, with or without a limit, reclaiming the jobs of workers that have gone
-- silent, and requeueing the failed jobs, with or without a limit, neither lose nor double a job: of
-- every id there are as many copies as before.
pub copies-maintenance :
    (settings : Settings) (now : ℕ) (limit : Option ℕ) (i : ℕ) (r : Redis)
    → (copies i (promote_delayed_jobs now limit r).1 ≡ copies i r)
      × (copies i (reclaim_stale_processing_jobs settings now r).1 ≡ copies i r)
      × (copies i (requeue_failed_jobs limit r).1 ≡ copies i r)
copies-maintenance settings now limit i r = (
  copies-promote_delayed_jobs now limit i r,
  copies-reclaim_stale_processing_jobs settings now i r,
  copies-requeue_failed_jobs limit i r,
)
