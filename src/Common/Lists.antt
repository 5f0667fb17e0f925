-- ===== src/Common/Lists.antt =====
-- Lists under Boolean tests, and measured by native numbers.
use Prim.Native.Nat.{ℕ, zero, suc, ◌+◌}
use mathlib.Core.Path.{◌≡◌, refl, subst, ap}
use mathlib.Core.Logic.{inl, inr}
use mathlib.Core.Bool.{Bool, true, false, ◌||◌}
use mathlib.Core.Option.{Option, none, some}
use mathlib.Core.List.{List, [], ◌∷◌, ◌++◌}
use native.Mathlib.Omega.{arith}
use appointment_voice_saas.Common.Tests.{if◌then◌else◌, Bool-cases}

abbrev map_option {ℓ} : {A : Type ℓ} → (A → A) → Option A → Option A
map_option f none = none
map_option f (some a) = some (f a)

module _ {ℓ} {A : Type ℓ} where
  abbrev pub length : List A → ℕ
  length [] = 0
  length (x ∷ xs) = suc (length xs)

  -- The rows of a table that a filter lets through, in table order.
  abbrev pub filter_by : (A → Bool) → List A → List A
  filter_by p [] = []
  filter_by p (x ∷ xs) = let rest = filter_by p xs in if p x then x ∷ rest else rest

  -- `.filter(...).first()`
  abbrev pub find_by : (A → Bool) → List A → Option A
  find_by p [] = none
  find_by p (x ∷ xs) = let rest = find_by p xs in if p x then some x else rest

  abbrev pub any_of : (A → Bool) → List A → Bool
  any_of p [] = false
  any_of p (x ∷ xs) = p x || any_of p xs

  -- The rows that pass the test are rewritten, the others stay.
  abbrev pub update_where : (A → Bool) → (A → A) → List A → List A
  update_where p f [] = []
  update_where p f (x ∷ xs) = (if p x then f x else x) ∷ update_where p f xs

  pub find_by_holds : (p : A → Bool) (xs : List A) (a : A) → find_by p xs ≡ some a → p a ≡ true
  find_by_holds p [] a h = cc
  find_by_holds p (x ∷ xs) a h = elim (Bool-cases (p x)) [
    | inl hit ↦ let found : some x ≡ some a = rw hit at h in cc
    | inr miss ↦ find_by_holds p xs a (rw miss at h)
  ]

  -- The row that a lookup finds, after a change of the rows of that lookup which keeps the key.
  pub find_by-update_where :
      (p : A → Bool) (f : A → A) (xs : List A) (a : A)
      → ((x : A) → p (f x) ≡ p x)
      → find_by p xs ≡ some a
      → find_by p (update_where p f xs) ≡ some (f a)
  find_by-update_where p f [] a keeps h = cc
  find_by-update_where p f (x ∷ xs) a keeps h = elim (Bool-cases (p x)) [
    | inl hit ↦
        let found : some x ≡ some a = rw hit at h in
        let same : p (f x) ≡ true = rw (keeps x) hit in
        rw (hit, same) (ap (λ (o : Option A). map_option f o) found)
    | inr miss ↦
        let later : find_by p xs ≡ some a = rw miss at h in
        rw (miss, miss) (find_by-update_where p f xs a keeps later)
  ]

  pub length-append : (xs ys : List A) → length (xs ++ ys) ≡ length xs + length ys
  length-append [] ys = omega arith
  length-append (x ∷ xs) ys = omega (arith, length-append xs ys)

  pub any_of-append :
      (p : A → Bool) (xs ys : List A) → any_of p (xs ++ ys) ≡ (any_of p xs || any_of p ys)
  any_of-append p [] ys = refl
  any_of-append p (x ∷ xs) ys = ground (arith, any_of-append p xs ys)

module _ {ℓ} {A : Type ℓ} where
  abbrev pub head : List A → Option A
  head [] = none
  head (x ∷ xs) = some x

  abbrev pub drop : ℕ → List A → List A
  drop zero xs = xs
  drop (suc n) [] = []
  drop (suc n) (x ∷ xs) = drop n xs

  abbrev pub take : ℕ → List A → List A
  take zero xs = []
  take (suc n) [] = []
  take (suc n) (x ∷ xs) = x ∷ take n xs

  -- .offset(skip).limit(limit)
  abbrev pub page : ℕ → ℕ → List A → List A
  page skip limit xs = take limit (drop skip xs)

  abbrev pub insert_by : (A → A → Bool) → A → List A → List A
  insert_by before x [] = x ∷ []
  insert_by before x (y ∷ ys) =
      let later = insert_by before x ys in if before x y then x ∷ y ∷ ys else y ∷ later

  -- ORDER BY: rows that the order does not tell apart keep the order of the table.
  abbrev pub order_by : (A → A → Bool) → List A → List A
  order_by before [] = []
  order_by before (x ∷ xs) = insert_by before x (order_by before xs)

abbrev pub All {ℓ κ} : {A : Type ℓ} → (A → Type κ) → List A → Type κ
All P [] = Unit
All P (x ∷ xs) = P x × All P xs

module _ {ℓ κ} {A : Type ℓ} (P : A → Type κ) where
  pub All-append : (xs ys : List A) → All P xs → All P ys → All P (xs ++ ys)
  All-append [] ys hx hy = hy
  All-append (x ∷ xs) ys hx hy = (hx.0, All-append xs ys hx.1 hy)

  -- What holds of every row holds of the one that a lookup finds.
  pub All-find_by : (p : A → Bool) (xs : List A) (a : A) → All P xs → find_by p xs ≡ some a → P a
  All-find_by p [] a h e = absurd (none_is_some e)
    where
      none_is_some : none ≡ some a → ⊥
      none_is_some q = cc
  All-find_by p (x ∷ xs) a h e = pick (p x) (λ q. All-find_by p xs a h.1 q) e
    where
      same : {b : A} → some x ≡ some b → x ≡ b
      same q = cc

      pick :
          (t : Bool)
          → (find_by p xs ≡ some a → P a)
          → (if t then some x else find_by p xs) ≡ some a
          → P a
      pick true rest q = subst P (same q) h.0
      pick false rest q = rest q
