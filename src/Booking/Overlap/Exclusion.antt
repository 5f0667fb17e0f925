-- ===== src/Booking/Overlap/Exclusion.antt =====
-- The table of bookings under the exclusion constraint: no two active bookings of one staff member
-- overlap, and ids are unique.
use mathlib.Core.Path.{subst}
use appointment_voice_saas.Common.{
  ℕ, some, List, [], ◌∷◌, ◌++◌, Bool, true, false, ◌&&◌, ◌||◌, ◌==◌, ltb, find_by, any_of,
  any_of-append, update_where, if◌then◌else◌, ◌≡◌, refl, sym, ◌∙◌, arith, inl, inr, Bool-cases,
  ==_iff, All,
}
use appointment_voice_saas.Tables.{Booking, is_active}
use appointment_voice_saas.Booking.Overlap.{excludes, same_staff}
use appointment_voice_saas.Booking.Reads.{is_booking}

abbrev pub NoOverlap : List Booking → Type 0
NoOverlap [] = Unit {0}
NoOverlap (b ∷ bs) = (any_of (excludes b) bs ≡ false) × NoOverlap bs

abbrev pub UniqueIds : List Booking → Type 0
UniqueIds [] = Unit {0}
UniqueIds (b ∷ bs) = (any_of (λ (c : Booking). c.id == b.id) bs ≡ false) × UniqueIds bs

excludes_symm : (a b : Booking) → excludes a b ≡ false → excludes b a ≡ false
excludes_symm a b h = ground arith

any_of-insert :
    (r b : Booking) (xs ys : List Booking)
    → any_of (excludes r) (xs ++ ys) ≡ false
    → excludes r b ≡ false
    → any_of (excludes r) (xs ++ b ∷ ys) ≡ false
any_of-insert r b xs ys h k =
    ground (arith, any_of-append (excludes r) xs ys, any_of-append (excludes r) xs (b ∷ ys))

-- A row that excludes none of the table, nor of the rows ahead of it, may join them.
pub NoOverlap-insert :
    (raced : List Booking) (b : Booking) (bs : List Booking)
    → NoOverlap (raced ++ bs)
    → any_of (excludes b) (raced ++ bs) ≡ false
    → NoOverlap (raced ++ b ∷ bs)
NoOverlap-insert [] b bs h k = (k, h)
NoOverlap-insert (r ∷ raced) b bs h k = (
  any_of-insert r b raced bs h.0 (excludes_symm b r (ground arith)),
  NoOverlap-insert raced b bs h.1 (ground arith),
)

-- A new version of a row that moves it neither in time nor between staff, and does not revive it.
pub record Weakens (b c : Booking) : Type 0 where
  pub same_id : c.id ≡ b.id
  pub same_staff_id : c.staff_id ≡ b.staff_id
  pub same_start : c.starts_at ≡ b.starts_at
  pub same_end : c.ends_at ≡ b.ends_at
  pub not_revived : is_active c.status ≡ true → is_active b.status ≡ true

Weakens-refl : (b : Booking) → Weakens b b
Weakens-refl b = record {
  same_id = refl;
  same_staff_id = refl;
  same_start = refl;
  same_end = refl;
  not_revived = λ h. h;
}

abbrev pub Frees : (Booking → Bool) → (Booking → Booking) → List Booking → Type 0
Frees p f = All (λ b. p b ≡ true → Weakens b (f b))

or_left : (x y : Bool) → (x || y) ≡ false → x ≡ false
or_left x y h = ground arith

or_right : (x y : Bool) → (x || y) ≡ false → y ≡ false
or_right x y h = ground arith

and_false :
    (x y p q r u v w : Bool)
    → (y ≡ true → x ≡ true)
    → (x && p && q && r && u && v && w) ≡ false
    → (y && p && q && r && u && v && w) ≡ false
and_false x false p q r u v w k h = refl
and_false true true p q r u v w k h = h
and_false false true p q r u v w k h = cc (k refl)

excludes-weaken : (a b c : Booking) → Weakens b c → excludes b a ≡ false → excludes c a ≡ false
excludes-weaken a b c w h =
    rw (w.same_staff_id, w.same_start, w.same_end)
      (and_false (is_active b.status) (is_active c.status) (is_active a.status)
        (same_staff b.staff_id a.staff_id) (ltb b.starts_at b.ends_at) (ltb a.starts_at a.ends_at)
        (ltb a.starts_at b.ends_at) (ltb b.starts_at a.ends_at) w.not_revived h)

any_of-weaken :
    (b c : Booking) (bs : List Booking)
    → Weakens b c
    → any_of (excludes b) bs ≡ false
    → any_of (excludes c) bs ≡ false
any_of-weaken b c [] w h = refl
any_of-weaken b c (a ∷ bs) w h =
    rw (excludes-weaken a b c w (ground arith)) (any_of-weaken b c bs w (ground arith))

module _ (p : Booking → Bool) (f : Booking → Booking) where
  abbrev updated : Booking → Booking
  updated b = if p b then f b else b

  updated-Weakens : (b : Booking) → (p b ≡ true → Weakens b (f b)) → Weakens b (updated b)
  updated-Weakens b w = pick (p b) w
    where
      pick : (t : Bool) → (t ≡ true → Weakens b (f b)) → Weakens b (if t then f b else b)
      pick true k = k refl
      pick false k = Weakens-refl b

  any_of-update :
      (a : Booking) (bs : List Booking)
      → Frees p f bs
      → any_of (excludes a) bs ≡ false
      → any_of (excludes a) (update_where p f bs) ≡ false
  any_of-update a [] k h = refl
  any_of-update a (b ∷ bs) k h =
      let apart : excludes a (updated b) ≡ false = excludes_symm (updated b) a (
        excludes-weaken a b (updated b) (updated-Weakens b k.0)
          (excludes_symm a b (ground arith))) in
      rw apart (any_of-update a bs k.1 (ground arith))

  NoOverlap-updated :
      (bs : List Booking) → Frees p f bs → NoOverlap bs → NoOverlap (update_where p f bs)
  NoOverlap-updated [] k h = tt
  NoOverlap-updated (b ∷ bs) k h = (
    any_of-weaken b (updated b) (update_where p f bs) (updated-Weakens b k.0)
        (any_of-update b bs k.1 h.0),
    NoOverlap-updated bs k.1 h.1,
  )

  -- Rows that are only weakened overlap no more than before, with the rows ahead of them either.
  pub NoOverlap-update :
      (raced bs : List Booking)
      → Frees p f bs
      → NoOverlap (raced ++ bs)
      → NoOverlap (raced ++ update_where p f bs)
  NoOverlap-update [] bs k h = NoOverlap-updated bs k h
  NoOverlap-update (r ∷ raced) bs k h =
      (split_update r raced bs k h.0, NoOverlap-update raced bs k h.1)
    where
      split_update :
          (r : Booking) (raced bs : List Booking)
          → Frees p f bs
          → any_of (excludes r) (raced ++ bs) ≡ false
          → any_of (excludes r) (raced ++ update_where p f bs) ≡ false
      split_update r [] bs k h = any_of-update r bs k h
      split_update r (x ∷ xs) bs k h =
          rw (or_left (excludes r x) (any_of (excludes r) (xs ++ bs)) h)
            (split_update r xs bs k (or_right (excludes r x) (any_of (excludes r) (xs ++ bs)) h))

module _ (p : Booking → Bool) (f : Booking → Booking)
    (keeps : (b : Booking) → (f b).id ≡ b.id) where
  updated-id : (b : Booking) → (if p b then f b else b).id ≡ b.id
  updated-id b = pick (p b)
    where
      pick : (t : Bool) → (if t then f b else b).id ≡ b.id
      pick true = keeps b
      pick false = refl

  fresh-updated :
      (n : ℕ) (bs : List Booking)
      → any_of (λ (c : Booking). c.id == n) bs ≡ false
      → any_of (λ (c : Booking). c.id == n) (update_where p f bs) ≡ false
  fresh-updated n [] h = refl
  fresh-updated n (b ∷ bs) h =
      rw (updated-id b, or_left (b.id == n) (any_of (λ (c : Booking). c.id == n) bs) h)
        (fresh-updated n bs (or_right (b.id == n) (any_of (λ (c : Booking). c.id == n) bs) h))

  -- A change that renames no row keeps the ids unique.
  pub UniqueIds-update : (bs : List Booking) → UniqueIds bs → UniqueIds (update_where p f bs)
  UniqueIds-update [] h = tt
  UniqueIds-update (b ∷ bs) h =
      (rw (updated-id b) (fresh-updated b.id bs h.0), UniqueIds-update bs h.1)

no_other :
    (b : Booking) (bs : List Booking) (n : ℕ)
    → b.id ≡ n
    → any_of (λ (c : Booking). c.id == n) bs ≡ false
    → All (λ (c : Booking). (c.id == n) ≡ true → c ≡ b) bs
no_other b [] n e h = tt
no_other b (c ∷ bs) n e h = (
  (λ k.
      absurd
        (clash (c.id == n) k (or_left (c.id == n) (any_of (λ (c : Booking). c.id == n) bs) h))),
  no_other b bs n e (or_right (c.id == n) (any_of (λ (c : Booking). c.id == n) bs) h),
)
  where
    clash : (t : Bool) → t ≡ true → t ≡ false → ⊥
    clash t p q = cc

some_eq : (a b : Booking) → some a ≡ some b → a ≡ b
some_eq a b e = cc

two_rows :
    (i n m : ℕ) (bs : List Booking)
    → m ≡ i
    → n ≡ m
    → any_of (λ (c : Booking). c.id == i) bs ≡ true
    → any_of (λ (c : Booking). c.id == n) bs ≡ false
    → ⊥
two_rows i n m bs e f h k = clash (rw (sym (f ∙ e)) at h)
  where
    clash : any_of (λ (c : Booking). c.id == n) bs ≡ true → ⊥
    clash p = cc

pub found_elsewhere :
    (i t : ℕ) (bs : List Booking) (b : Booking)
    → find_by (is_booking i t) bs ≡ some b
    → (b.id ≡ i) × (any_of (λ (c : Booking). c.id == i) bs ≡ true)
found_elsewhere i t [] b e = cc
found_elsewhere i t (x ∷ bs) b e = ground (arith, found_elsewhere i t bs b)

-- Where ids are unique, the row that a lookup finds is the only one of its id.
pub unique_row :
    (i t : ℕ) (bs : List Booking) (b : Booking)
    → UniqueIds bs
    → find_by (is_booking i t) bs ≡ some b
    → All (λ (c : Booking). (c.id == b.id) ≡ true → c ≡ b) bs
unique_row i t [] b u e = tt
unique_row i t (x ∷ bs) b u e = elim (Bool-cases (is_booking i t x)) [
  | inl hit ↦
      let same : x ≡ b = some_eq x b (rw hit at e) in
      (
        (λ _. same),
        subst (λ y. All (λ (c : Booking). (c.id == y.id) ≡ true → c ≡ y) bs) same
            (no_other x bs x.id refl u.0),
      )
  | inr miss ↦
      let later : find_by (is_booking i t) bs ≡ some b = rw miss at e in
      let (same_id, present) = found_elsewhere i t bs b later in
      (
        (λ k. absurd (two_rows i x.id b.id bs same_id ((==_iff x.id b.id).0 k) present u.0)),
        unique_row i t bs b u.1 later,
      )
]
