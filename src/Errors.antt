-- ===== src/Errors.antt =====
-- app/core/domain_errors.py, and the other exceptions that the services raise.
use appointment_voice_saas.Common.{String, Bool, true, false, Option, none, some, ◌≡◌, refl}

-- The database constraints that an INSERT of the services can violate.
pub data Constraint : Type 0 where
  no_overlapping_staff_bookings uq_calendar_events_booking_id : Constraint
  uq_booking_payments_booking_id bookings_pkey uq_customers_business_phone
        idempotency_records_scope_key_key :
      Constraint

pub data Error : Type 0 where
  bad_request not_found conflict : String → Error
  -- sqlalchemy.exc.IntegrityError, by the constraint that it names
  integrity_error : Constraint → Error
  -- sqlalchemy.exc.NoResultFound, of Query.one()
  no_result_found : Error
  -- The ValueError and the TypeError of Python.
  value_error : String → Error
  type_error : Error
  -- KeyError, and the UnknownJobTypeError of app/worker.py.
  key_error unknown_job_type : String → Error
  -- No exception: the statement never ends, so that nothing behind it runs.
  never_ends : Error
  -- redis.exceptions.RedisError, which means that a push has failed
  redis_error : Error
  sms_delivery_error calendar_sync_error calendar_cancel_error : Option String → Error

pub data Result {ℓ} (A : Type ℓ) : Type ℓ where
  ok : A → Result A
  err : Error → Result A

-- `if row is None: raise ...`
abbrev pub or_raise {ℓ} : {A : Type ℓ} → Option A → Error → Result A
or_raise none e = err e
or_raise (some a) e = ok a

abbrev pub require_that : Bool → Error → Result (Unit {0})
require_that true e = ok tt
require_that false e = err e

module _ {ℓ κ} {A : Type ℓ} {B : Type κ} where
  infixl 5 ◌>>=◌ ◌>>◌
  -- The next statement runs unless the one before it has raised.
  abbrev pub ◌>>=◌ : Result A → (A → Result B) → Result B
  ok value >>= next = next value
  err error >>= next = err error

  abbrev pub ◌>>◌ : Result A → Result B → Result B
  first >> next = first >>= λ _. next

-- What a call that returns has gone through.
pub bind_ok {ℓ κ} :
    {A : Type ℓ} {B : Type κ} (r : Result A) (f : A → Result B) (b : B)
    → (r >>= f) ≡ ok b
    → (a : A) × (r ≡ ok a) × (f a ≡ ok b)
bind_ok (ok a) f b h = (a, refl, h)
bind_ok (err e) f b h = absurd (raised h)
  where
    raised : err e ≡ ok b → ⊥
    raised h = cc

pub require_that_ok : (b : Bool) (e : Error) (u : Unit {0}) → require_that b e ≡ ok u → b ≡ true
require_that_ok true e u h = refl
require_that_ok false e u h = cc

pub or_raise_ok {ℓ} :
    {A : Type ℓ} (o : Option A) (e : Error) (a : A) → or_raise o e ≡ ok a → o ≡ some a
or_raise_ok none e a h = absurd (raised h)
  where
    raised : err e ≡ ok a → ⊥
    raised h = cc
or_raise_ok (some b) e a h = same h
  where
    same : ok b ≡ ok a → some b ≡ some a
    same h = cc
