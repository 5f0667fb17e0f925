-- ===== src/Session/Keeps.antt =====
-- Invariants of actions, one rule for each way to build an action.
use appointment_voice_saas.Common.{◌≡◌, refl, List, [], ◌∷◌, Bool, true, false}
use appointment_voice_saas.Tables.{Db}
use appointment_voice_saas.Errors.{Error, Result, ok, err, integrity_error}
use appointment_voice_saas.Session.{
  Session, Action, JobRequest, pure, raise, read, query, modify, commit, rollback, enqueue_job,
  push, ◌>>=◌, continue, handled, catch_overlap, fresh_id,
}

-- `m` keeps `P` of the open transaction and of what is committed, whether it returns or raises.
pub record Keeps {A : Type 0} (P : Db → Type 0) (m : Action A) : Type 0 where
  pub at : (s : Session) → P s.db × P s.committed → P (m s).1.db × P (m s).1.committed

module _ {A : Type 0} {P : Db → Type 0} where
  pub Keeps-pure : (a : A) → Keeps P (pure a)
  unfolding pure
  Keeps-pure a = record { at = λ state both. both }

  pub Keeps-raise : (e : Error) → Keeps P (raise {A = A} e)
  unfolding raise
  Keeps-raise e = record { at = λ state both. both }

  pub Keeps-read : (f : Db → Result A) → Keeps P (read f)
  unfolding read
  Keeps-read f = record { at = λ state both. both }

  pub Keeps-query : (f : Db → A) → Keeps P (query f)
  unfolding query
  Keeps-query f = record { at = λ state both. both }

module _ {P : Db → Type 0} where
  pub Keeps-modify : (f : Db → Db) → ((db : Db) → P db → P (f db)) → Keeps P (modify f)
  unfolding modify
  Keeps-modify f h = record { at = λ s k. (h s.db k.0, k.1) }

  pub Keeps-fresh_id : Keeps P fresh_id
  unfolding fresh_id
  Keeps-fresh_id = record { at = λ state both. both }

  pub Keeps-commit : Keeps P commit
  unfolding commit
  Keeps-commit = record { at = λ s h. (h.0, h.0) }

  pub Keeps-rollback : Keeps P rollback
  unfolding rollback
  Keeps-rollback = record { at = λ s h. (h.1, h.1) }

  pub Keeps-enqueue_job : (job : JobRequest) → Keeps P (enqueue_job job)
  unfolding enqueue_job
  Keeps-enqueue_job job = record { at = λ s h. by_answer s h s.answers }
    where
      by_answer :
          (s : Session)
          → P s.db × P s.committed
          → (answers : List Bool) → P (push answers job s).1.db × P (push answers job s).1.committed
      by_answer s h [] = h
      by_answer s h (true ∷ later) = h
      by_answer s h (false ∷ later) = h

module _ {A B : Type 0} {P : Db → Type 0} where
  Keeps-continue :
      (r : Result A) (f : A → Action B)
      → ((a : A) → r ≡ ok a → Keeps P (f a))
      → Keeps P (continue r f)
  Keeps-continue (ok a) f then = then a refl
  Keeps-continue (err e) f then = record { at = λ state both. both }

  pub Keeps-bind :
      (m : Action A) (f : A → Action B) → Keeps P m → ((a : A) → Keeps P (f a)) → Keeps P (m >>= f)
  unfolding ◌>>=◌
  Keeps-bind m f first then = record {
    at = λ state both.
        let (r, after) = m state in
        (Keeps-continue r f (λ a _. then a)).at after (first.at state both);
  }

  -- What follows a query may use what the query found.
  pub Keeps-read-bind :
      (q : Db → Result A) (f : A → Action B)
      → ((db : Db) (a : A) → P db → q db ≡ ok a → Keeps P (f a))
      → Keeps P (read q >>= f)
  unfolding ◌>>=◌
  Keeps-read-bind q f kf = record {
    at = λ s h. (Keeps-continue (q s.db) f (λ a e. kf s.db a h.0 e)).at s h;
  }

module _ {A : Type 0} {P : Db → Type 0} where
  Keeps-handled : (r : Result A) → Keeps P (handled r)
  unfolding handled
  Keeps-handled (ok a) = record { at = λ state both. both }
  Keeps-handled (err (integrity_error c)) = record { at = λ s h. (h.1, h.1) }
  Keeps-handled (err e) = record { at = λ state both. both }

  pub Keeps-catch_overlap : (m : Action A) → Keeps P m → Keeps P (catch_overlap m)
  unfolding catch_overlap
  Keeps-catch_overlap m km = record {
    at = λ s h. let (r, s') = m s in (Keeps-handled r).at s' (km.at s h);
  }

-- The same of one state, where what the call has read of it counts.
pub record KeepsAt {A : Type 0} (P : Db → Type 0) (s : Session) (m : Action A) : Type 0 where
  pub here : P s.db × P s.committed → P (m s).1.db × P (m s).1.committed

module _ {A : Type 0} {P : Db → Type 0} where
  pub KeepsAt-all : (m : Action A) → ((s : Session) → KeepsAt P s m) → Keeps P m
  KeepsAt-all m k = record { at = λ s h. (k s).here h }

  pub KeepsAt-Keeps : (s : Session) (m : Action A) → Keeps P m → KeepsAt P s m
  KeepsAt-Keeps s m k = record { here = k.at s }

module _ {A B : Type 0} {P : Db → Type 0} where
  KeepsAt-continue :
      (r : Result A) (s : Session) (f : A → Action B)
      → ((a : A) → r ≡ ok a → KeepsAt P s (f a))
      → KeepsAt P s (continue r f)
  KeepsAt-continue (ok a) s f kf = kf a refl
  KeepsAt-continue (err e) s f kf = record { here = λ h. h }

  pub KeepsAt-read :
      (s : Session) (q : Db → Result A) (f : A → Action B)
      → ((a : A) → q s.db ≡ ok a → KeepsAt P s (f a))
      → KeepsAt P s (read q >>= f)
  unfolding ◌>>=◌
  KeepsAt-read s q f kf = record { here = (KeepsAt-continue (q s.db) s f kf).here }

module _ {B : Type 0} {P : Db → Type 0} where
  pub KeepsAt-modify :
      (s : Session) (g : Db → Db) (f : Unit {0} → Action B)
      → (P s.db → P (g s.db))
      → KeepsAt P (record s { db = g s.db }) (f tt)
      → KeepsAt P s (modify g >>= f)
  unfolding ◌>>=◌
  KeepsAt-modify s g f kept k = record { here = λ h. k.here (kept h.0, h.1) }

module _ {P : Db → Type 0} where
  pub KeepsAt-modify_last :
      (s : Session) (g : Db → Db) → (P s.db → P (g s.db)) → KeepsAt P s (modify g)
  unfolding modify
  KeepsAt-modify_last s g kept = record { here = λ h. (kept h.0, h.1) }

pub ruleset keeps_rules = (
  Keeps-pure, Keeps-raise, Keeps-read, Keeps-query, Keeps-fresh_id, Keeps-commit, Keeps-rollback,
  Keeps-enqueue_job, Keeps-bind, Keeps-catch_overlap,
)
