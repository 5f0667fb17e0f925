-- ===== src/Session.antt =====
-- The SQLAlchemy session of app/db/session.py as explicit state, with the Redis queues that the
-- services push to beside it. A method is an action: it returns or raises, and hands the state on.
-- What an uncommitted transaction wrote is in `db` and not in `committed`; closing the session
-- after an exception drops it. Queued jobs belong to no transaction.
pub mod Answers
pub mod Keeps
pub mod Atomic
pub mod Frames
pub mod Lands
pub mod Raises
pub mod Returns
use appointment_voice_saas.Common.{ℕ, ◌+◌, String, List, [], ◌∷◌, ◌++◌, Bool, true, false}
use appointment_voice_saas.Tables.{Db}
use appointment_voice_saas.Errors.{
  Error, integrity_error, conflict, redis_error, Constraint, no_overlapping_staff_bookings,
  uq_calendar_events_booking_id, uq_booking_payments_booking_id, Result, ok, err,
}

-- The jobs that the modelled services queue, with the id in their payload.
pub data JobRequest : Type 0 where
  send_notification sync_calendar_event cancel_calendar_event : ℕ → JobRequest

pub record Session : Type 0 where
  pub db : Db
  pub committed : Db
  -- Oldest first.
  pub queued : List JobRequest
  -- Whether Redis takes the next pushes, `false` for one that raises. It takes all those after them.
  pub answers : List Bool
  -- The Redis keys that are locks, each with the time at which it runs out.
  pub locks : List (String × ℕ)
  -- The ids that the database hands out. All tables draw from one counter, which a rollback does
  -- not turn back.
  pub next_id : ℕ

abbrev pub Action : Type 0 → Type 0
Action A = Session → Result A × Session

module _ {A : Type 0} where
  pub pure : A → Action A
  pure a s = (ok a, s)

  pub raise : Error → Action A
  raise e s = (err e, s)

  -- A query that may raise.
  pub read : (Db → Result A) → Action A
  read f s = (f s.db, s)

  pub query : (Db → A) → Action A
  query f s = (ok (f s.db), s)

-- Changes that are flushed to the open transaction.
pub modify : (Db → Db) → Action (Unit {0})
modify f s = (ok tt, record s { db = f s.db })

pub fresh_id : Action ℕ
fresh_id s = (ok s.next_id, record s { next_id = s.next_id + 1 })

pub commit : Action (Unit {0})
commit s = (ok tt, record s { committed = s.db })

pub rollback : Action (Unit {0})
rollback s = (ok tt, record s { db = s.committed })

-- A push to Redis, by whether Redis takes it. A job that it takes is queued at once and for good.
abbrev pub push : List Bool → JobRequest → Action (Unit {0})
push [] job s = (ok tt, record s { queued = s.queued ++ job ∷ []; answers = [] })
push (true ∷ later) job s = (ok tt, record s { queued = s.queued ++ job ∷ []; answers = later })
push (false ∷ later) job s = (err redis_error, record s { answers = later })

pub enqueue_job : JobRequest → Action (Unit {0})
enqueue_job job s = push s.answers job s

module _ {A B : Type 0} where
  abbrev pub continue : Result A → (A → Action B) → Action B
  continue (ok a) f s = f a s
  continue (err e) f s = (err e, s)

  infixl 5 ◌>>=◌ ◌>>◌
  unfoldable pub ◌>>=◌ : Action A → (A → Action B) → Action B
  unfolding pure raise read query modify fresh_id commit rollback enqueue_job
  ◌>>=◌ m f s = let (r, s') = m s in continue r f s'

  abbrev pub ◌>>◌ : Action A → Action B → Action B
  m >> n = m >>= λ _. n

-- except IntegrityError as exc: db.rollback(); raise ConflictError or the exception itself
abbrev pub overlap_error : Constraint → Error
overlap_error no_overlapping_staff_bookings =
    conflict "This time slot is already booked for the selected staff"
overlap_error c = integrity_error c

module _ {A : Type 0} where
  pub handled : Result A → Action A
  handled (err (integrity_error c)) s = (err (overlap_error c), record s { db = s.committed })
  handled r s = (r, s)

  unfoldable pub catch_overlap : Action A → Action A
  unfolding handled
  catch_overlap m s = let (r, s') = m s in handled r s'
