-- ===== src/Session/Frames.antt =====
-- Actions that leave the bookings alone, and actions that touch no table at all.
use appointment_voice_saas.Common.{◌≡◌, refl, sym, ◌∙◌, List, [], ◌∷◌, Bool, true, false}
use appointment_voice_saas.Tables.{Db}
use appointment_voice_saas.Errors.{Result, ok, err}
use appointment_voice_saas.Session.{
  Session, Action, JobRequest, pure, read, query, modify, commit, enqueue_job, push, ◌>>=◌,
  continue, fresh_id,
}

-- `m` leaves the bookings of the open transaction as they are.
pub record Frames {A : Type 0} (m : Action A) : Type 0 where
  pub framed : (s : Session) → (m s).1.db.bookings ≡ s.db.bookings

-- `m` touches neither the open transaction nor what is committed.
pub record Outside {A : Type 0} (m : Action A) : Type 0 where
  pub apart : (s : Session) → ((m s).1.db ≡ s.db) × ((m s).1.committed ≡ s.committed)

-- `m` is `Outside`, and whatever it returns is `b`.
pub record Gives {A : Type 0} (b : A) (m : Action A) : Type 0 where
  pub gives :
      (s : Session) (a : A)
      → (m s).0 ≡ ok a
      → (a ≡ b) × ((m s).1.db ≡ s.db) × ((m s).1.committed ≡ s.committed)

ok_eq : {A : Type 0} → (a b : A) → ok a ≡ ok b → a ≡ b
ok_eq a b h = cc

module _ {A : Type 0} where
  pub Frames-pure : (a : A) → Frames (pure a)
  unfolding pure
  Frames-pure a = record { framed = λ s. refl }

  pub Frames-read : (f : Db → Result A) → Frames (read f)
  unfolding read
  Frames-read f = record { framed = λ s. refl }

  pub Frames-query : (f : Db → A) → Frames (query f)
  unfolding query
  Frames-query f = record { framed = λ s. refl }

  pub Gives-pure : (a : A) → Gives a (pure a)
  unfolding pure
  Gives-pure a = record { gives = λ s b h. (sym (ok_eq a b h), refl, refl) }

  pub Outside-pure : (a : A) → Outside (pure a)
  unfolding pure
  Outside-pure a = record { apart = λ s. (refl, refl) }

pub Frames-fresh_id : Frames fresh_id
unfolding fresh_id
Frames-fresh_id = record { framed = λ s. refl }

pub Frames-commit : Frames commit
unfolding commit
Frames-commit = record { framed = λ s. refl }

pub Frames-modify : (f : Db → Db) → ((db : Db) → (f db).bookings ≡ db.bookings) → Frames (modify f)
unfolding modify
Frames-modify f same = record { framed = λ s. same s.db }

pub Outside-enqueue_job : (job : JobRequest) → Outside (enqueue_job job)
unfolding enqueue_job
Outside-enqueue_job job = record { apart = λ s. by_answer s s.answers }
  where
    by_answer :
        (s : Session) (answers : List Bool)
        → ((push answers job s).1.db ≡ s.db) × ((push answers job s).1.committed ≡ s.committed)
    by_answer s [] = (refl, refl)
    by_answer s (true ∷ later) = (refl, refl)
    by_answer s (false ∷ later) = (refl, refl)

module _ {A B : Type 0} where
  Frames-continue :
      (r : Result A) (f : A → Action B) → ((a : A) → Frames (f a)) → Frames (continue r f)
  Frames-continue (ok a) f rest = rest a
  Frames-continue (err e) f rest = record { framed = λ s. refl }

  pub Frames-bind :
      (m : Action A) (f : A → Action B) → Frames m → ((a : A) → Frames (f a)) → Frames (m >>= f)
  unfolding ◌>>=◌
  Frames-bind m f first rest = record {
    framed = λ s. let (r, after) = m s in (Frames-continue r f rest).framed after ∙ first.framed s;
  }

  Outside-continue :
      (r : Result A) (f : A → Action B) → ((a : A) → Outside (f a)) → Outside (continue r f)
  Outside-continue (ok a) f rest = rest a
  Outside-continue (err e) f rest = record { apart = λ s. (refl, refl) }

  pub Outside-bind :
      (m : Action A) (f : A → Action B) → Outside m → ((a : A) → Outside (f a)) → Outside (m >>= f)
  unfolding ◌>>=◌
  Outside-bind m f first rest = record {
    apart = λ s.
        let (r, after) = m s in
        let (d, c) = (Outside-continue r f rest).apart after in
        (d ∙ (first.apart s).0, c ∙ (first.apart s).1);
  }

  Gives-continue :
      (r : Result A) (f : A → Action B) (b : B) → ((a : A) → Gives b (f a)) → Gives b (continue r f)
  Gives-continue (ok a) f b rest = rest a
  Gives-continue (err e) f b rest = record { gives = λ s a h. absurd (raised a h) }
    where
      raised : (a : B) → err e ≡ ok a → ⊥
      raised a h = cc

  pub Gives-bind :
      (m : Action A) (f : A → Action B) (b : B)
      → Outside m
      → ((a : A) → Gives b (f a))
      → Gives b (m >>= f)
  unfolding ◌>>=◌
  Gives-bind m f b first rest = record {
    gives = λ s a h.
        let (r, after) = m s in
        let (v, d, c) = (Gives-continue r f b rest).gives after a h in
        (v, d ∙ (first.apart s).0, c ∙ (first.apart s).1);
  }

pub ruleset frame_rules =
    (Frames-pure, Frames-read, Frames-query, Frames-fresh_id, Frames-commit, Frames-bind)
