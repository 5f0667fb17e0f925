-- ===== src/Jobs/Round.antt =====
-- One round of the worker: where the job that it takes ends up.
use mathlib.Core.Path.{subst}
use appointment_voice_saas.Common.{
  ℕ, ◌+◌, ◌≤◌, String, Option, none, some, List, [], ◌∷◌, true, ◌≡◌, refl, sym, ◌==◌, ==_iff, leb,
  ltb, arith, Bool-cases, inl, inr, ap,
}
use appointment_voice_saas.Jobs.Job.{Job, same_job, same_job-id, with_next_attempt, with_error}
use appointment_voice_saas.Jobs.Redis.{Redis, lrem, zrem, insert_scored, zadd}
use appointment_voice_saas.Jobs.Queue.{
  Settings, ack_job, schedule_retry, move_job_to_failed_queue, seconds,
  calculate_retry_delay_seconds,
}
use appointment_voice_saas.Jobs.Worker.{
  Handled, done, unknown_type, failure, known_job_types, dequeue_any, settle, finish,
  process_next_job,
}
use appointment_voice_saas.Jobs.Conservation.{one, count_ready, count_delayed, copies, one-same_job}
use appointment_voice_saas.Jobs.Dequeued.{Dequeued, nothing, taken, Dequeued-dequeue_any, lrem_head}

count_delayed-insert_scored :
    (i : ℕ) (j : Job) (score : ℕ) (ms : List (Job × ℕ))
    → count_delayed i (insert_scored j score ms) ≡ one i j + count_delayed i ms
count_delayed-insert_scored i j score [] = refl
count_delayed-insert_scored i j score ((x, other) ∷ ms) = elim (Bool-cases (leb other score)) [
  | inl before ↦ rw before (omega (arith, count_delayed-insert_scored i j score ms))
  | inr after ↦ rw after refl
]

one_self : (i : ℕ) (j : Job) → j.id ≡ i → one i j ≡ 1
one_self i j e = rw ((==_iff j.id i).1 e) refl

-- A member that is not in the set is not replaced.
zrem_absent : (j : Job) (ms : List (Job × ℕ)) → count_delayed j.id ms ≡ 0 → zrem j ms ≡ ms
zrem_absent j [] h = refl
zrem_absent j ((x, score) ∷ ms) h = elim (Bool-cases (same_job x j)) [
  | inl same ↦ absurd (clash (one_self j.id x (same_job-id x j same)) h)
  | inr other ↦
      rw other (ap (λ (l : List (Job × ℕ)). (x, score) ∷ l) (zrem_absent j ms (omega (arith, h))))
]
  where
    clash : one j.id x ≡ 1 → one j.id x + count_delayed j.id ms ≡ 0 → ⊥
    clash p q = omega (arith, p, q)

-- The copies of an id that the round brings to an end.
abbrev pub completed : ℕ → (Job → Handled) → Option Job → ℕ
completed i handle_job none = 0
completed i handle_job (some j) = elim (handle_job j) [
  | done ↦ one i j
  | unknown_type message ↦ 0
  | failure message ↦ 0
]

count_delayed-zrem_other :
    (i : ℕ) (j : Job) (ms : List (Job × ℕ))
    → one i j ≡ 0
    → count_delayed i (zrem j ms) ≡ count_delayed i ms
count_delayed-zrem_other i j [] h = refl
count_delayed-zrem_other i j ((x, score) ∷ ms) h = elim (Bool-cases (same_job x j)) [
  | inl same ↦ rw same (omega (arith, one-same_job i x j same, h))
  | inr other ↦ rw other (omega (arith, count_delayed-zrem_other i j ms h))
]

count_delayed-zadd :
    (i : ℕ) (j : Job) (score : ℕ) (ms : List (Job × ℕ))
    → one i j + count_delayed i ms ≤ 1
    → count_delayed i (zadd j score ms) ≡ one i j + count_delayed i ms
count_delayed-zadd i j score ms few = elim (Bool-cases (j.id == i)) [
  | inl hit ↦
      let same : j.id ≡ i = (==_iff j.id i).0 hit in
      let single : one i j ≡ 1 = one_self i j same in
      let absent : count_delayed i ms ≡ 0 = omega (arith, few, single) in
      let kept : zrem j ms ≡ ms =
        zrem_absent j ms (subst (λ (k : ℕ). count_delayed k ms ≡ 0) (sym same) absent) in
      rw kept (count_delayed-insert_scored i j score ms)
  | inr miss ↦
      let other : one i j ≡ 0 = rw miss refl in
      omega (
        arith,
        count_delayed-insert_scored i j score (zrem j ms),
        count_delayed-zrem_other i j ms other,
      )
]

copies-settle :
    (settings : Settings) (now i : ℕ) (handle_job : Job → Handled) (r : Redis) (j x : Job)
    (ready : List (String × Job))
    → same_job x j ≡ true
    → one i j + count_ready i ready ≡ count_ready i r.ready
    → copies i r ≤ 1
    → copies i (
          settle settings now j
            (handle_job j)
            (record r { ready = ready; processing = x ∷ r.processing }))
        + completed i handle_job (some j)
      ≡ copies i r
unfolding settle ack_job schedule_retry move_job_to_failed_queue
copies-settle settings now i handle_job r j x ready same counted few = pick (handle_job j)
  where
    ended : Handled → ℕ
    ended done = one i j
    ended (unknown_type message) = 0
    ended (failure message) = 0

    at_head : lrem j (x ∷ r.processing) ≡ r.processing
    at_head = lrem_head x j r.processing same

    pick :
        (h : Handled)
        → copies i
              (settle settings now j h (record r { ready = ready; processing = x ∷ r.processing }))
            + ended h
          ≡ copies i r
    pick done = rw at_head (omega (arith, counted))
    pick (unknown_type message) = rw at_head (omega (arith, counted))
    pick (failure message) = elim (Bool-cases (ltb j.attempts settings.max_retries)) [
      | inl again ↦
          rw
            (
              again,
              at_head,
              count_delayed-zadd i (with_error message (with_next_attempt j))
                  (now + seconds (calculate_retry_delay_seconds settings (j.attempts + 1)))
                  r.delayed (omega (arith, counted, few)),
            )
            (omega (arith, counted))
      | inr given_up ↦ rw (given_up, at_head) (omega (arith, counted))
    ]

copies-finish :
    (settings : Settings) (now i : ℕ) (handle_job : Job → Handled) (r : Redis)
    (p : Option Job × Redis)
    → Dequeued i r p
    → copies i r ≤ 1
    → copies i (finish settings handle_job now p).1 + completed i handle_job p.0 ≡ copies i r
copies-finish settings now i handle_job r _ nothing few = omega arith
copies-finish settings now i handle_job r _ (taken j x ready same counted) few =
    copies-settle settings now i handle_job r j x ready same counted few

-- One round of the worker, for an id of which there is at most one job: its copy is still there,
-- ready, in processing, delayed or failed, unless the round has taken it and `handle_job` has
-- returned; then it is gone.
pub copies-process_next_job :
    (settings : Settings) (handle_job : Job → Handled) (now i : ℕ) (r : Redis)
    → copies i r ≤ 1
    → copies i (process_next_job settings handle_job now r).1
        + completed i handle_job (dequeue_any now known_job_types r).0
      ≡ copies i r
unfolding process_next_job
copies-process_next_job settings handle_job now i r few =
    copies-finish settings now i handle_job r (dequeue_any now known_job_types r)
      (Dequeued-dequeue_any i now known_job_types r) few
