-- ===== src/Session/Lands.antt =====
-- What a call that returns has committed of the bookings, followed through its statements.
use mathlib.Core.Path.{subst}
use appointment_voice_saas.Common.{◌≡◌, refl, sym, ◌∙◌, ap, List}
use appointment_voice_saas.Tables.{Db, Booking}
use appointment_voice_saas.Errors.{Result, ok, err, integrity_error}
use appointment_voice_saas.Session.{
  Session, Action, read, modify, commit, ◌>>=◌, continue, handled, catch_overlap,
}
use appointment_voice_saas.Session.Frames.{Frames, Outside, Gives}

-- Started on these bookings, `m` leaves the open transaction committed when it returns, and the
-- value and the committed bookings stand in the relation.
pub record Lands {A : Type 0} (G : A → List Booking → Type 0) (rows : List Booking) (m : Action A)
    : Type 0 where
  pub lands :
      (s : Session) (a : A)
      → s.db.bookings ≡ rows
      → (m s).0 ≡ ok a
      → G a (m s).1.committed.bookings × ((m s).1.db ≡ (m s).1.committed)

-- Started on these bookings, `m` leaves the later ones in the open transaction when it returns.
pub record Steps {A : Type 0} (rows later : List Booking) (m : Action A) : Type 0 where
  pub steps :
      (s : Session) (a : A) → s.db.bookings ≡ rows → (m s).0 ≡ ok a → (m s).1.db.bookings ≡ later

module _ {A B : Type 0} {G : B → List Booking → Type 0} {rows : List Booking} where
  Lands-continue :
      (r : Result A) (f : A → Action B)
      → ((a : A) → r ≡ ok a → Lands G rows (f a))
      → Lands G rows (continue r f)
  Lands-continue (ok a) f rest = rest a refl
  Lands-continue (err e) f rest = record { lands = λ s a at h. absurd (raised a h) }
    where
      raised : (a : B) → err e ≡ ok a → ⊥
      raised a h = cc

  -- A statement that leaves the bookings alone.
  pub Lands-frame :
      (m : Action A) (f : A → Action B)
      → Frames m
      → ((a : A) → Lands G rows (f a))
      → Lands G rows (m >>= f)
  unfolding ◌>>=◌
  Lands-frame m f first rest = record {
    lands = λ s b at h.
        let (r, after) = m s in
        (Lands-continue r f (λ a _. rest a)).lands after b (first.framed s ∙ at) h;
  }

  -- A query, whose result the rest may use.
  pub Lands-read :
      (q : Db → Result A) (f : A → Action B)
      → ((db : Db) (a : A) → db.bookings ≡ rows → q db ≡ ok a → Lands G rows (f a))
      → Lands G rows (read q >>= f)
  unfolding ◌>>=◌
  Lands-read q f rest = record {
    lands = λ s b at h. (Lands-continue (q s.db) f (λ a e. rest s.db a at e)).lands s b at h;
  }

module _ {B : Type 0} where
  handled_ok :
      (r : Result B) (s : Session) (b : B)
      → (handled r s).0 ≡ ok b
      → (r ≡ ok b) × ((handled r s).1 ≡ s)
  unfolding handled
  handled_ok (ok a) s b h = (h, refl)
  handled_ok (err (integrity_error c)) s b h = cc
  handled_ok (err e) s b h = cc

module _ {A B : Type 0} where
  Lands-settled :
      (G : B → List Booking → Type 0) (r : Result A) (f : A → Action B) (b : B) (s : Session)
      → ((a : A) → r ≡ ok a → G b s.committed.bookings × (s.db ≡ s.committed))
      → ((a : A) → Gives b (f a))
      → (v : B) → (continue r f s).0 ≡ ok v
      → G v (continue r f s).1.committed.bookings
        × ((continue r f s).1.db ≡ (continue r f s).1.committed)
  Lands-settled G (ok a) f b s first after v h =
      let (reached, clean) = first a refl in
      let (e, d, c) = (after a).gives s v h in
      (
        subst (λ (x : B). G x (f a s).1.committed.bookings) (sym e)
            (subst (λ (db : Db). G b db.bookings) (sym c) reached),
        d ∙ clean ∙ sym c,
      )
  Lands-settled G (err e) f b s first after v h = absurd (raised h)
    where
      raised : err e ≡ ok v → ⊥
      raised h = cc

module _ {A B : Type 0} {G : B → List Booking → Type 0} {rows : List Booking} where
  -- A block that has landed, when what comes after it only queues jobs.
  pub Lands-then :
      (m : Action A) (f : A → Action B) (b : B)
      → Lands (λ _ found. G b found) rows m
      → ((a : A) → Gives b (f a))
      → Lands G rows (m >>= f)
  unfolding ◌>>=◌
  Lands-then m f b first after = record {
    lands = λ s v at h.
        let (r, t) = m s in Lands-settled G r f b t (λ a e. first.lands s a at e) after v h;
  }

module _ {B : Type 0} {G : B → List Booking → Type 0} {rows : List Booking} where
  -- A write of bookings.
  pub Lands-modify :
      (g : Db → Db) (later : List Booking) (f : Unit {0} → Action B)
      → ((db : Db) → db.bookings ≡ rows → (g db).bookings ≡ later)
      → Lands G later (f tt)
      → Lands G rows (modify g >>= f)
  unfolding ◌>>=◌ modify
  Lands-modify g later f writes rest = record {
    lands = λ s b at h. rest.lands (record s { db = g s.db }) b (writes s.db at) h;
  }

  -- The commit, when what comes after it only queues jobs.
  pub Lands-commit :
      (b : B) (f : Unit {0} → Action B) → G b rows → Gives b (f tt) → Lands G rows (commit >>= f)
  unfolding ◌>>=◌ commit
  Lands-commit b f reached after = record {
    lands = λ s a at h.
        let (v, d, c) = after.gives (record s { committed = s.db }) a h in
        (
          subst (λ (x : B). G x (f tt (record s { committed = s.db })).1.committed.bookings) (sym v)
              (subst (λ (bs : List Booking). G b bs) (sym (ap (λ (db : Db). db.bookings) c ∙ at))
                reached),
          d ∙ sym c,
        );
  }

  -- A block that returns has not been rolled back.
  pub Lands-catch_overlap : (m : Action B) → Lands G rows m → Lands G rows (catch_overlap m)
  unfolding catch_overlap
  Lands-catch_overlap m inner = record {
    lands = λ s b at h.
        let (r, after) = m s in
        let (e, same) = handled_ok r after b h in
        subst (λ (t : Session). G b t.committed.bookings × (t.db ≡ t.committed)) (sym same)
          (inner.lands s b at e);
  }

pub Steps-modify :
    (rows later : List Booking) (g : Db → Db)
    → ((db : Db) → db.bookings ≡ rows → (g db).bookings ≡ later)
    → Steps rows later (modify g)
unfolding modify
Steps-modify rows later g writes = record { steps = λ s a at h. writes s.db at }

module _ {A B : Type 0} {rows later : List Booking} where
  Steps-continue :
      (r : Result A) (f : A → Action B)
      → ((a : A) → Steps rows later (f a))
      → Steps rows later (continue r f)
  Steps-continue (ok a) f rest = rest a
  Steps-continue (err e) f rest = record { steps = λ s a at h. absurd (raised a h) }
    where
      raised : (a : B) → err e ≡ ok a → ⊥
      raised a h = cc

  pub Steps-frame :
      (m : Action A) (f : A → Action B)
      → Frames m
      → ((a : A) → Steps rows later (f a))
      → Steps rows later (m >>= f)
  unfolding ◌>>=◌
  Steps-frame m f first rest = record {
    steps = λ s b at h.
        let (r, after) = m s in (Steps-continue r f rest).steps after b (first.framed s ∙ at) h;
  }

module _ {A B : Type 0} {G : B → List Booking → Type 0} {later : List Booking} where
  Lands-continue_at :
      (r : Result A) (f : A → Action B) (s : Session)
      → ((a : A) → r ≡ ok a → s.db.bookings ≡ later)
      → ((a : A) → Lands G later (f a))
      → (b : B) → (continue r f s).0 ≡ ok b
      → G b (continue r f s).1.committed.bookings
        × ((continue r f s).1.db ≡ (continue r f s).1.committed)
  Lands-continue_at (ok a) f s at rest b h = (rest a).lands s b (at a refl) h
  Lands-continue_at (err e) f s at rest b h = absurd (raised h)
    where
      raised : err e ≡ ok b → ⊥
      raised h = cc

  -- A block that writes bookings.
  pub Lands-step :
      {rows : List Booking} (m : Action A) (f : A → Action B)
      → Steps rows later m
      → ((a : A) → Lands G later (f a))
      → Lands G rows (m >>= f)
  unfolding ◌>>=◌
  Lands-step m f first rest = record {
    lands = λ s b at h.
        let (r, after) = m s in Lands-continue_at r f after (λ a e. first.steps s a at e) rest b h;
  }

module _ {A B : Type 0} {G : B → List Booking → Type 0} {H : A → List Booking → Type 0} where
  Lands-continue_after :
      (r : Result A) (f : A → Action B) (s : Session)
      → ((a : A) → r ≡ ok a → H a s.db.bookings)
      → ((a : A) (found : List Booking) → H a found → Lands G found (f a))
      → (b : B) → (continue r f s).0 ≡ ok b
      → G b (continue r f s).1.committed.bookings
        × ((continue r f s).1.db ≡ (continue r f s).1.committed)
  Lands-continue_after (ok a) f s at rest b h = (rest a s.db.bookings (at a refl)).lands s b refl h
  Lands-continue_after (err e) f s at rest b h = absurd (raised h)
    where
      raised : err e ≡ ok b → ⊥
      raised h = cc

  -- One transaction after another.
  pub Lands-bind :
      {rows : List Booking} (m : Action A) (f : A → Action B)
      → Lands H rows m
      → ((a : A) (found : List Booking) → H a found → Lands G found (f a))
      → Lands G rows (m >>= f)
  unfolding ◌>>=◌
  Lands-bind m f first rest = record {
    lands = λ s b at h.
        let (r, after) = m s in
        Lands-continue_after r f after
          (λ a e.
            let (reached, clean) = first.lands s a at e in
            subst (λ (db : Db). H a db.bookings) (sym clean) reached)
          rest b h;
  }

module _ {B : Type 0} {rows : List Booking} where
  -- The commit, where the value does not matter.
  pub Lands-commit_rows :
      (f : Unit {0} → Action B)
      → Outside (f tt)
      → Lands (λ _ found. found ≡ rows) rows (commit >>= f)
  unfolding ◌>>=◌ commit
  Lands-commit_rows f after = record {
    lands = λ s a at h.
        let (d, c) = after.apart (record s { committed = s.db }) in
        (ap (λ (db : Db). db.bookings) c ∙ at, d ∙ sym c);
  }
