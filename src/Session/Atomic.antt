-- ===== src/Session/Atomic.antt =====
-- All or nothing: what a call that raises has left behind.
use mathlib.Core.Path.{subst}
use appointment_voice_saas.Common.{◌≡◌, refl, sym, ◌∙◌, List, [], ◌∷◌, Bool, true, false}
use appointment_voice_saas.Tables.{Db}
use appointment_voice_saas.Errors.{Error, Result, ok, err, integrity_error, redis_error}
use appointment_voice_saas.Session.{
  Session, Action, JobRequest, pure, raise, read, query, modify, commit, enqueue_job, push, ◌>>=◌,
  continue, handled, catch_overlap, fresh_id,
}
use appointment_voice_saas.Session.Frames.{Outside, Outside-pure, Outside-enqueue_job, Outside-bind}

-- Nothing that outlives the transaction has changed: no commit and no queued job.
abbrev pub Same : Session → Session → Type 0
Same s t = (t.committed ≡ s.committed) × (t.queued ≡ s.queued)

Same-trans : (s t u : Session) → Same s t → Same t u → Same s u
Same-trans s t u p q = (q.0 ∙ p.0, q.1 ∙ p.1)

-- `m` writes to its open transaction only, whether it returns or raises.
pub record Quiet {A : Type 0} (m : Action A) : Type 0 where
  pub same : (s : Session) → Same s (m s).1

-- `m` writes to no table, and nothing but a push of it can raise.
pub record Pushes {A : Type 0} (m : Action A) : Type 0 where
  pub outside : Outside m
  pub only : (s : Session) (e : Error) → (m s).0 ≡ err e → e ≡ redis_error

-- When `m` returns, what it has written is committed.
pub record Closes {A : Type 0} (m : Action A) : Type 0 where
  pub closes : (s : Session) (a : A) → (m s).0 ≡ ok a → (m s).1.db ≡ (m s).1.committed

-- What a call that raises has left behind: nothing, or a push has failed when all that the call has
-- written had been committed.
pub data Left (e : Error) (s t : Session) : Type 0 where
  nothing_done : Same s t → Left e s t
  not_pushed : e ≡ redis_error → t.db ≡ t.committed → Left e s t

Left-after : (s t u : Session) (e : Error) → Same s t → Left e t u → Left e s u
Left-after s t u e same (nothing_done left) = nothing_done (Same-trans s t u same left)
Left-after s t u e same (not_pushed refused shut) = not_pushed refused shut

pub record Atomic {A : Type 0} (m : Action A) : Type 0 where
  pub on_error : (s : Session) (e : Error) → (m s).0 ≡ err e → Left e s (m s).1

module _ {A : Type 0} where
  pub Quiet-pure : (a : A) → Quiet (pure a)
  unfolding pure
  Quiet-pure a = record { same = λ s. (refl, refl) }

  pub Quiet-raise : (e : Error) → Quiet (raise {A = A} e)
  unfolding raise
  Quiet-raise e = record { same = λ s. (refl, refl) }

  pub Quiet-read : (f : Db → Result A) → Quiet (read f)
  unfolding read
  Quiet-read f = record { same = λ s. (refl, refl) }

  pub Quiet-query : (f : Db → A) → Quiet (query f)
  unfolding query
  Quiet-query f = record { same = λ s. (refl, refl) }

  pub Pushes-pure : (a : A) → Pushes (pure a)
  unfolding pure
  Pushes-pure a = record { outside = Outside-pure a; only = λ s e h. cc }

pub Quiet-modify : (f : Db → Db) → Quiet (modify f)
unfolding modify
Quiet-modify f = record { same = λ s. (refl, refl) }

pub Quiet-fresh_id : Quiet fresh_id
unfolding fresh_id
Quiet-fresh_id = record { same = λ s. (refl, refl) }

pub Pushes-enqueue_job : (job : JobRequest) → Pushes (enqueue_job job)
unfolding enqueue_job
Pushes-enqueue_job job = record {
  outside = Outside-enqueue_job job;
  only = λ s e h. by_answer s s.answers e h;
}
  where
    by_answer :
        (s : Session) (answers : List Bool) (e : Error)
        → (push answers job s).0 ≡ err e
        → e ≡ redis_error
    by_answer s [] e h = cc
    by_answer s (true ∷ later) e h = cc
    by_answer s (false ∷ later) e h = cc

pub Closes-commit : Closes commit
unfolding commit
Closes-commit = record { closes = λ s a h. refl }

pub Atomic-commit : Atomic commit
unfolding commit
Atomic-commit = record { on_error = λ s e h. cc }

module _ {A B : Type 0} where
  Quiet-continue :
      (r : Result A) (f : A → Action B) → ((a : A) → Quiet (f a)) → Quiet (continue r f)
  Quiet-continue (ok a) f h = h a
  Quiet-continue (err e) f h = record { same = λ s. (refl, refl) }

  pub Quiet-bind :
      (m : Action A) (f : A → Action B) → Quiet m → ((a : A) → Quiet (f a)) → Quiet (m >>= f)
  unfolding ◌>>=◌
  Quiet-bind m f qm qf = record {
    same = λ s.
        let (r, s') = m s in
        Same-trans s s' (continue r f s').1 (qm.same s) ((Quiet-continue r f qf).same s');
  }

  Pushes-continue :
      (r : Result A) (f : A → Action B) (s : Session) (e : Error)
      → ((d : Error) → r ≡ err d → d ≡ redis_error)
      → ((a : A) → Pushes (f a))
      → (continue r f s).0 ≡ err e
      → e ≡ redis_error
  Pushes-continue (ok a) f s e first rest h = (rest a).only s e h
  Pushes-continue (err d) f s e first rest h = let it = first d refl in cc

  pub Pushes-bind :
      (m : Action A) (f : A → Action B) → Pushes m → ((a : A) → Pushes (f a)) → Pushes (m >>= f)
  unfolding ◌>>=◌
  Pushes-bind m f first rest = record {
    outside = Outside-bind m f first.outside (λ a. (rest a).outside);
    only = λ s e h. let (r, s') = m s in Pushes-continue r f s' e (first.only s) rest h;
  }

  Closes-continue :
      (r : Result A) (f : A → Action B) → ((a : A) → Closes (f a)) → Closes (continue r f)
  Closes-continue (ok a) f rest = rest a
  Closes-continue (err e) f rest = record { closes = λ s b h. cc }

  pub Closes-bind : (m : Action A) (f : A → Action B) → ((a : A) → Closes (f a)) → Closes (m >>= f)
  unfolding ◌>>=◌
  Closes-bind m f rest = record {
    closes = λ s b h. let (r, s') = m s in (Closes-continue r f rest).closes s' b h;
  }

  Closes-continue-Pushes :
      (r : Result A) (f : A → Action B) (s : Session) (b : B)
      → ((a : A) → r ≡ ok a → s.db ≡ s.committed)
      → ((a : A) → Pushes (f a))
      → (continue r f s).0 ≡ ok b
      → (continue r f s).1.db ≡ (continue r f s).1.committed
  Closes-continue-Pushes (ok a) f s b shut rest h =
      let (same_db, same_committed) = (rest a).outside.apart s in
      same_db ∙ shut a refl ∙ sym same_committed
  Closes-continue-Pushes (err e) f s b shut rest h = cc

  -- What follows a commit writes nothing.
  pub Closes-bind-Pushes :
      (m : Action A) (f : A → Action B) → Closes m → ((a : A) → Pushes (f a)) → Closes (m >>= f)
  unfolding ◌>>=◌
  Closes-bind-Pushes m f shut rest = record {
    closes = λ s b h. let (r, s') = m s in Closes-continue-Pushes r f s' b (shut.closes s) rest h;
  }

  Atomic-continue :
      (r : Result A) (f : A → Action B) → ((a : A) → Atomic (f a)) → Atomic (continue r f)
  Atomic-continue (ok a) f h = h a
  Atomic-continue (err e) f h = record { on_error = λ s e' p. nothing_done (refl, refl) }

  pub Atomic-bind :
      (m : Action A) (f : A → Action B) → Quiet m → ((a : A) → Atomic (f a)) → Atomic (m >>= f)
  unfolding ◌>>=◌
  Atomic-bind m f qm af = record {
    on_error = λ s e p.
        let (r, s') = m s in
        Left-after s s' (continue r f s').1 e (qm.same s)
          ((Atomic-continue r f af).on_error s' e p);
  }

  Atomic-continue-Pushes :
      (r : Result A) (f : A → Action B) (s t : Session) (e : Error)
      → ((d : Error) → r ≡ err d → Left d s t)
      → ((a : A) → r ≡ ok a → t.db ≡ t.committed)
      → ((a : A) → Pushes (f a))
      → (continue r f t).0 ≡ err e
      → Left e s (continue r f t).1
  Atomic-continue-Pushes (ok a) f s t e left shut rest h =
      let (same_db, same_committed) = (rest a).outside.apart t in
      not_pushed ((rest a).only t e h) (same_db ∙ shut a refl ∙ sym same_committed)
  Atomic-continue-Pushes (err d) f s t e left shut rest h =
      let same : d ≡ e = cc in subst (λ (x : Error). Left x s t) same (left d refl)

  -- What comes after the commit pushes, and does no more.
  pub Atomic-bind-Pushes :
      (m : Action A) (f : A → Action B)
      → Atomic m
      → Closes m
      → ((a : A) → Pushes (f a))
      → Atomic (m >>= f)
  unfolding ◌>>=◌
  Atomic-bind-Pushes m f am shut rest = record {
    on_error = λ s e p.
        let (r, s') = m s in
        Atomic-continue-Pushes r f s s' e (am.on_error s) (shut.closes s) rest p;
  }

module _ {A : Type 0} where
  Atomic-continue-pure :
      (r : Result A) (s t : Session) (e : Error)
      → ((d : Error) → r ≡ err d → Left d s t)
      → (continue r (λ _. pure tt) t).0 ≡ err e
      → Left e s (continue r (λ _. pure tt) t).1
  unfolding pure
  Atomic-continue-pure (ok a) s t e left h = cc
  Atomic-continue-pure (err d) s t e left h =
      let same : d ≡ e = cc in subst (λ (x : Error). Left x s t) same (left d refl)

  -- The value of a call is dropped.
  pub Atomic-drop : (m : Action A) → Atomic m → Atomic (m >>= λ _. pure tt)
  unfolding ◌>>=◌
  Atomic-drop m am = record {
    on_error = λ s e p. let (r, s') = m s in Atomic-continue-pure r s s' e (am.on_error s) p;
  }

  pub Atomic-Quiet : (m : Action A) → Quiet m → Atomic m
  Atomic-Quiet m q = record { on_error = λ s e p. nothing_done (q.same s) }

  Left-handled :
      (r : Result A) (s t : Session) (e : Error)
      → ((d : Error) → r ≡ err d → Left d s t)
      → (handled r t).0 ≡ err e
      → Left e s (handled r t).1
  unfolding handled
  Left-handled (ok a) s t e left p = cc
  Left-handled (err (integrity_error c)) s t e left p = rolled_back (left (integrity_error c) refl)
    where
      rolled_back : Left (integrity_error c) s t → Left e s (record t { db = t.committed })
      rolled_back (nothing_done same) = nothing_done same
      rolled_back (not_pushed refused shut) = cc
  Left-handled (err d) s t e left p = left e p

  pub Atomic-catch_overlap : (m : Action A) → Atomic m → Atomic (catch_overlap m)
  unfolding catch_overlap
  Atomic-catch_overlap m am = record {
    on_error = λ s e p. let (r, s') = m s in Left-handled r s s' e (am.on_error s) p;
  }

  Closes-handled :
      (r : Result A) (t : Session) (a : A)
      → ((b : A) → r ≡ ok b → t.db ≡ t.committed)
      → (handled r t).0 ≡ ok a
      → (handled r t).1.db ≡ (handled r t).1.committed
  unfolding handled
  Closes-handled (ok b) t a shut h = shut b refl
  Closes-handled (err (integrity_error c)) t a shut h = refl
  Closes-handled (err e) t a shut h = cc

  pub Closes-catch_overlap : (m : Action A) → Closes m → Closes (catch_overlap m)
  unfolding catch_overlap
  Closes-catch_overlap m cm = record {
    closes = λ s a h. let (r, s') = m s in Closes-handled r s' a (cm.closes s) h;
  }

pub ruleset quiet_rules =
    (Quiet-pure, Quiet-raise, Quiet-read, Quiet-query, Quiet-modify, Quiet-fresh_id, Quiet-bind)

pub ruleset push_rules = (Pushes-pure, Pushes-enqueue_job, Pushes-bind)

pub ruleset close_rules = (Closes-commit, Closes-bind-Pushes, Closes-bind, Closes-catch_overlap)
