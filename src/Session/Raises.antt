-- ===== src/Session/Raises.antt =====
-- A call whose later statement raises after an earlier one has returned.
use appointment_voice_saas.Common.{◌≡◌, refl}
use appointment_voice_saas.Tables.{Db}
use appointment_voice_saas.Errors.{Error, Result, ok, err}
use appointment_voice_saas.Session.{Session, Action, read, query, modify, ◌>>=◌, continue}

module _ {A B C D : Type 0} (b : B) (e : Error) where
  -- A query and a guard, a statement that returns, and one that raises.
  pub raises_fourth :
      (q : Db → Result A) (p : A → Db → Result (Unit {0})) (m : A → Action B) (k : A → B → Action C)
      (f : A → C → Action D) (s : Session) (a : A)
      → q s.db ≡ ok a
      → p a s.db ≡ ok tt
      → (m a s).0 ≡ ok b
      → (k a b (m a s).1).0 ≡ err e
      → let whole = (read q >>= λ x. read (p x) >>= λ _. m x >>= λ y. k x y >>= f x) s in
        (whole.0 ≡ err e) × (whole.1 ≡ (k a b (m a s).1).1)
  unfolding ◌>>=◌ read
  raises_fourth q p m k f s a found guarded first second =
      rw (found, guarded, first, second) (refl, refl)

module _ {A B : Type 0} (Q : Result B × Session → Type 0) where
  after_continue :
      (r : Result A) (f : A → Action B) (s : Session)
      → ((a : A) → r ≡ ok a → Q (f a s))
      → ((e : Error) → Q (err e, s))
      → Q (continue r f s)
  after_continue (ok a) f s returned raised = returned a refl
  after_continue (err e) f s returned raised = raised e

  -- What a query leads to: the rest with what it found, or its error.
  pub after_read :
      (q : Db → Result A) (f : A → Action B) (s : Session)
      → ((a : A) → q s.db ≡ ok a → Q (f a s))
      → ((e : Error) → Q (err e, s))
      → Q ((read q >>= f) s)
  unfolding ◌>>=◌
  after_read q f s returned raised = after_continue (q s.db) f s returned raised

  pub after_query :
      (q : Db → A) (f : A → Action B) (s : Session) → Q (f (q s.db) s) → Q ((query q >>= f) s)
  unfolding ◌>>=◌ query
  after_query q f s rest = rest

module _ {B : Type 0} (Q : Result B × Session → Type 0) where
  pub after_modify :
      (g : Db → Db) (f : Unit {0} → Action B) (s : Session)
      → Q (f tt (record s { db = g s.db }))
      → Q ((modify g >>= f) s)
  unfolding ◌>>=◌
  after_modify g f s rest = rest
