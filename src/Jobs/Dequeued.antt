-- ===== src/Jobs/Dequeued.antt =====
-- What taking a job from the queues does.
use appointment_voice_saas.Common.{
  same_text, ℕ, ◌+◌, String, Option, none, some, List, [], ◌∷◌, true, ◌≡◌, refl, sym, ==_iff, arith,
  Bool-cases, inl, inr, ◌⊎◌,
}
use appointment_voice_saas.Jobs.Job.{
  Job, same_job, same_job_refl, same_option, with_processing_started_at,
}
use appointment_voice_saas.Jobs.Redis.{Redis, take_last, last_of, lrem}
use appointment_voice_saas.Jobs.Queue.{started, dequeue_job}
use appointment_voice_saas.Jobs.Worker.{dequeue_any, found_or_next}
use appointment_voice_saas.Jobs.Conservation.{one, count_ready}

same_option_symm : (a b : Option ℕ) → same_option a b ≡ true → same_option b a ≡ true
same_option_symm none none h = refl
same_option_symm none (some b) h = cc
same_option_symm (some a) none h = cc
same_option_symm (some a) (some b) h = (==_iff b a).1 (sym ((==_iff a b).0 h))

-- The started job and the raw one, if they do not differ.
same_job-started :
    (now : ℕ) (raw : Job)
    → same_job (with_processing_started_at now raw) raw ≡ true
    → same_job raw (with_processing_started_at now raw) ≡ true
same_job-started now raw h =
    let started_at : same_option (some now) raw.processing_started_at ≡ true = ground arith in
    ground
      (arith, same_job_refl raw, same_option_symm (some now) raw.processing_started_at started_at)

abbrev taken_count : ℕ → Option (Job × List (String × Job)) → ℕ
taken_count i none = 0
taken_count i (some (j, rows)) = one i j + count_ready i rows

taken_count-last_of :
    (i : ℕ) (job_type t : String) (j : Job) (rows : List (String × Job))
    (o : Option (Job × List (String × Job)))
    → (o ≡ none) ⊎ (taken_count i o ≡ count_ready i rows)
    → (last_of job_type t j rows o ≡ none)
      ⊎ (taken_count i (last_of job_type t j rows o) ≡ one i j + count_ready i rows)
taken_count-last_of i job_type t j rows none h = elim (Bool-cases (same_text t job_type)) [
  | inl hit ↦ inr (rw hit refl)
  | inr miss ↦ inl (rw miss refl)
]
taken_count-last_of i job_type t j rows (some (k, others)) (inl e) = absurd (empty e)
  where
    empty : {b : Job × List (String × Job)} → some b ≡ none → ⊥
    empty p = cc
taken_count-last_of i job_type t j rows (some (k, others)) (inr same) = inr (omega (arith, same))

-- What is taken out of a list and what stays are the list.
taken_count-take_last :
    (i : ℕ) (job_type : String) (rows : List (String × Job))
    → (take_last job_type rows ≡ none)
      ⊎ (taken_count i (take_last job_type rows) ≡ count_ready i rows)
taken_count-take_last i job_type [] = inl refl
taken_count-take_last i job_type ((t, j) ∷ rows) =
    taken_count-last_of i job_type t j rows (take_last job_type rows)
      (taken_count-take_last i job_type rows)

-- What taking a job does: nothing, or one job has gone from the queues to the head of processing.
pub data Dequeued (i : ℕ) (r : Redis) : Option Job × Redis → Type 0 where
  nothing : Dequeued i r (none, r)
  taken :
      (j x : Job) (ready : List (String × Job))
      → same_job x j ≡ true
      → one i j + count_ready i ready ≡ count_ready i r.ready
      → Dequeued i r (some j, record r { ready = ready; processing = x ∷ r.processing })

pub lrem_head : (x j : Job) (js : List Job) → same_job x j ≡ true → lrem j (x ∷ js) ≡ js
lrem_head x j js same = rw same refl

Dequeued-started :
    (i now : ℕ) (r : Redis) (raw : Job) (rest : List (String × Job))
    → one i raw + count_ready i rest ≡ count_ready i r.ready
    → Dequeued i r (started now r (some (raw, rest)))
Dequeued-started i now r raw rest h =
    let j : Job = with_processing_started_at now raw in
    elim (Bool-cases (same_job j raw)) [
      | inl same ↦ rw same (taken j raw rest (same_job-started now raw same) h)
      | inr other ↦
          rw (other, lrem_head raw raw r.processing (same_job_refl raw))
            (taken j j rest (same_job_refl j) h)
    ]

Dequeued-dequeue_job :
    (i now : ℕ) (job_type : String) (r : Redis) → Dequeued i r (dequeue_job now job_type r)
unfolding dequeue_job
Dequeued-dequeue_job i now job_type r =
    pick (take_last job_type r.ready) (taken_count-take_last i job_type r.ready)
  where
    empty : {b : Job × List (String × Job)} → some b ≡ none → ⊥
    empty p = cc

    pick :
        (o : Option (Job × List (String × Job)))
        → (o ≡ none) ⊎ (taken_count i o ≡ count_ready i r.ready)
        → Dequeued i r (started now r o)
    pick none h = nothing
    pick (some (raw, rest)) (inr h) = Dequeued-started i now r raw rest h
    pick (some (raw, rest)) (inl e) = absurd (empty e)

Dequeued-found_or_next :
    (i : ℕ) (r : Redis) (p : Option Job × Redis) (next : Redis → Option Job × Redis)
    → Dequeued i r p
    → Dequeued i r (next r)
    → Dequeued i r (found_or_next p next)
Dequeued-found_or_next i r _ next nothing h = h
Dequeued-found_or_next i r _ next (taken j x ready same counted) h = taken j x ready same counted

pub Dequeued-dequeue_any :
    (i now : ℕ) (types : List String) (r : Redis) → Dequeued i r (dequeue_any now types r)
unfolding dequeue_any
Dequeued-dequeue_any i now [] r = nothing
Dequeued-dequeue_any i now (t ∷ types) r =
    Dequeued-found_or_next i r (dequeue_job now t r) (dequeue_any now types)
      (Dequeued-dequeue_job i now t r) (Dequeued-dequeue_any i now types r)
