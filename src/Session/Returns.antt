-- ===== src/Session/Returns.antt =====
-- What a call that returns has gone through.
use appointment_voice_saas.Common.{◌≡◌, refl}
use appointment_voice_saas.Errors.{Result, ok, err}
use appointment_voice_saas.Session.{Session, Action, ◌>>=◌, continue}

module _ {A B : Type 0} where
  returns_continue :
      (r : Result A) (f : A → Action B) (s : Session) (b : B)
      → (continue r f s).0 ≡ ok b
      → (a : A) × (r ≡ ok a) × (continue r f s ≡ f a s)
  returns_continue (ok a) f s b h = (a, refl, refl)
  returns_continue (err e) f s b h = absurd (raised h)
    where
      raised : err e ≡ ok b → ⊥
      raised h = cc

  -- The first statement has returned, and the rest went on from there.
  pub returns_bind :
      (m : Action A) (f : A → Action B) (s : Session) (b : B)
      → ((m >>= f) s).0 ≡ ok b
      → (a : A) × ((m s).0 ≡ ok a) × ((m >>= f) s ≡ f a (m s).1)
  unfolding ◌>>=◌
  returns_bind m f s b h = let (r, after) = m s in returns_continue r f after b h
