-- ===== src/Session/Answers.antt =====
-- Whether Redis takes a row of pushes, one for each element of a list.
use appointment_voice_saas.Common.{List, [], ◌∷◌, Bool, true, false}

module _ {ℓ} {A : Type ℓ} where
  abbrev pub takes : List A → List Bool → Bool
  takes xs [] = true
  takes [] (answer ∷ later) = true
  takes (x ∷ xs) (true ∷ later) = takes xs later
  takes (x ∷ xs) (false ∷ later) = false

  -- The answers that are left.
  abbrev pub beyond : List A → List Bool → List Bool
  beyond xs [] = []
  beyond [] (answer ∷ later) = answer ∷ later
  beyond (x ∷ xs) (answer ∷ later) = beyond xs later
