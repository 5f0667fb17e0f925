-- ===== src/Booking/Overlap/Apart.antt =====
-- The exclusion constraint of the bookings table, in the words of a calendar.
use appointment_voice_saas.Common.{
  ℕ, ◌≤◌, ◌≡◌, ◌≢◌, refl, Option, none, some, List, [], ◌∷◌, true, false, ltb, any_of, All,
  Bool-cases, inl, inr, arith,
}
use appointment_voice_saas.Tables.{Booking, BookingStatus, is_active}
use appointment_voice_saas.Booking.Overlap.{excludes, same_staff}
use appointment_voice_saas.Booking.Overlap.Exclusion.{NoOverlap}

-- Two bookings that may stand beside each other.
pub data Apart (a b : Booking) : Type 0 where
  first_cancelled : a.status ≡ BookingStatus.cancelled → Apart a b
  second_cancelled : b.status ≡ BookingStatus.cancelled → Apart a b
  first_unassigned : a.staff_id ≡ none → Apart a b
  second_unassigned : b.staff_id ≡ none → Apart a b
  other_staff : {i j : ℕ} → a.staff_id ≡ some i → b.staff_id ≡ some j → i ≢ j → Apart a b
  first_empty : a.ends_at ≤ a.starts_at → Apart a b
  second_empty : b.ends_at ≤ b.starts_at → Apart a b
  before : a.ends_at ≤ b.starts_at → Apart a b
  after : b.ends_at ≤ a.starts_at → Apart a b

-- Each two of them may.
abbrev pub AllApart : List Booking → Type 0
AllApart [] = Unit {0}
AllApart (b ∷ bs) = All (Apart b) bs × AllApart bs

is_active_cancelled :
    (status : BookingStatus) → is_active status ≡ false → status ≡ BookingStatus.cancelled
is_active_cancelled BookingStatus.confirmed h = cc
is_active_cancelled BookingStatus.cancelled h = refl
is_active_cancelled BookingStatus.pending_payment h = cc

Apart-same_staff :
    (a b : Booking) (x y : Option ℕ)
    → a.staff_id ≡ x
    → b.staff_id ≡ y
    → same_staff x y ≡ false
    → Apart a b
Apart-same_staff a b none y e f h = first_unassigned e
Apart-same_staff a b (some i) none e f h = second_unassigned f
Apart-same_staff a b (some i) (some j) e f h = other_staff e f (λ (same : i ≡ j). ground arith)

Apart-starts_at :
    (a b : Booking)
    → is_active a.status ≡ true
    → is_active b.status ≡ true
    → same_staff a.staff_id b.staff_id ≡ true
    → excludes a b ≡ false
    → Apart a b
Apart-starts_at a b first second same h = elim (Bool-cases (ltb a.starts_at a.ends_at)) [
  | inr none_of_it ↦ first_empty (ground arith)
  | inl some_of_it ↦ elim (Bool-cases (ltb b.starts_at b.ends_at)) [
    | inr none_of_other ↦ second_empty (ground arith)
    | inl some_of_other ↦ elim (Bool-cases (ltb b.starts_at a.ends_at)) [
      | inr early ↦ before (ground arith)
      | inl late ↦ after (ground arith)
    ]
  ]
]

Apart-excludes : (a b : Booking) → excludes a b ≡ false → Apart a b
Apart-excludes a b h = elim (Bool-cases (is_active a.status)) [
  | inr gone ↦ first_cancelled (is_active_cancelled a.status gone)
  | inl first ↦ elim (Bool-cases (is_active b.status)) [
    | inr gone ↦ second_cancelled (is_active_cancelled b.status gone)
    | inl second ↦ elim (Bool-cases (same_staff a.staff_id b.staff_id)) [
      | inr other ↦ Apart-same_staff a b a.staff_id b.staff_id refl refl other
      | inl same ↦ Apart-starts_at a b first second same h
    ]
  ]
]

excludes-Apart : (a b : Booking) → Apart a b → excludes a b ≡ false
excludes-Apart a b (first_cancelled e) = rw e refl
excludes-Apart a b (second_cancelled e) = rw e (ground arith)
excludes-Apart a b (first_unassigned e) = rw e (ground arith)
excludes-Apart a b (second_unassigned e) = rw e (ground arith)
excludes-Apart a b (other_staff e f apart) = rw (e, f) (ground arith)
excludes-Apart a b (first_empty e) = ground arith
excludes-Apart a b (second_empty e) = ground arith
excludes-Apart a b (before e) = ground arith
excludes-Apart a b (after e) = ground arith

All-Apart : (b : Booking) (bs : List Booking) → any_of (excludes b) bs ≡ false → All (Apart b) bs
All-Apart b [] h = tt
All-Apart b (c ∷ bs) h = (Apart-excludes b c (ground arith), All-Apart b bs (ground arith))

any_of-Apart : (b : Booking) (bs : List Booking) → All (Apart b) bs → any_of (excludes b) bs ≡ false
any_of-Apart b [] h = refl
any_of-Apart b (c ∷ bs) h = rw (excludes-Apart b c h.0) (any_of-Apart b bs h.1)

-- What the constraint tests is that.
pub AllApart-NoOverlap : (bs : List Booking) → NoOverlap bs → AllApart bs
AllApart-NoOverlap [] h = tt
AllApart-NoOverlap (b ∷ bs) h = (All-Apart b bs h.0, AllApart-NoOverlap bs h.1)

pub NoOverlap-AllApart : (bs : List Booking) → AllApart bs → NoOverlap bs
NoOverlap-AllApart [] h = tt
NoOverlap-AllApart (b ∷ bs) h = (any_of-Apart b bs h.0, NoOverlap-AllApart bs h.1)
