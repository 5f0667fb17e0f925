-- ===== src/Booking/Lists/Soonest.antt =====
-- The booking that `get_next_confirmed_booking` finds, against what it is meant to be.
use mathlib.Core.Logic.Or
use mathlib.Core.List.{Mem, Mem-prop, mem-cons, mem-cons_self, mem-cons_of_mem}
use appointment_voice_saas.Common.{
  ℕ, ◌<◌, ◌==◌, ltb, ◌≢◌, ◌⊎◌, ◌≤◌, Option, none, some, List, [], ◌∷◌, Bool, true, false, ◌≡◌, refl,
  filter_by, order_by, insert_by, head, All, Bool-cases, inl, inr, arith,
}
use appointment_voice_saas.Tables.{Db, Booking, BookingStatus, is_confirmed}
use appointment_voice_saas.Env.{Env}
use appointment_voice_saas.Booking.Lists.{is_upcoming, starts_before, get_next_confirmed_booking}

-- No later than any of these.
abbrev pub NotAfter : Booking → List Booking → Type 0
NotAfter b rows = All (λ (x : Booking). b.starts_at ≤ x.starts_at) rows

-- A confirmed booking of the customer with the business, that has not begun.
pub record Upcoming (env : Env) (business_id tenant_id customer_id : ℕ) (b : Booking) : Type 0 where
  pub its_business : b.business_id ≡ business_id
  pub its_tenant : b.tenant_id ≡ tenant_id
  pub its_customer : b.customer_id ≡ customer_id
  pub its_status : b.status ≡ BookingStatus.confirmed
  pub ahead : env.now < b.starts_at

pub data NotUpcoming (env : Env) (business_id tenant_id customer_id : ℕ) (b : Booking)
    : Type 0 where
  other_business : b.business_id ≢ business_id → NotUpcoming env business_id tenant_id customer_id b
  other_tenant : b.tenant_id ≢ tenant_id → NotUpcoming env business_id tenant_id customer_id b
  other_customer : b.customer_id ≢ customer_id → NotUpcoming env business_id tenant_id customer_id b
  on_hold :
      b.status ≡ BookingStatus.pending_payment → NotUpcoming env business_id tenant_id customer_id b
  called_off :
      b.status ≡ BookingStatus.cancelled → NotUpcoming env business_id tenant_id customer_id b
  begun : b.starts_at ≤ env.now → NotUpcoming env business_id tenant_id customer_id b

-- What is found, if anything, is the first of the upcoming rows.
pub data First (env : Env) (business_id tenant_id customer_id : ℕ) (rows : List Booking)
    : Option Booking → Type 0 where
  nobody :
      All (NotUpcoming env business_id tenant_id customer_id) rows
      → First env business_id tenant_id customer_id rows none
  somebody :
      {b : Booking}
      → Mem b rows
      → Upcoming env business_id tenant_id customer_id b
      → All
          (λ (x : Booking).
            NotUpcoming env business_id tenant_id customer_id x ⊎ (b.starts_at ≤ x.starts_at))
          rows
      → First env business_id tenant_id customer_id rows (some b)

is_confirmed_lem :
    (status : BookingStatus) → is_confirmed status ≡ true → status ≡ BookingStatus.confirmed
is_confirmed_lem BookingStatus.confirmed h = refl
is_confirmed_lem BookingStatus.cancelled h = cc
is_confirmed_lem BookingStatus.pending_payment h = cc

NotAfter-trans :
    (a b : Booking) (rows : List Booking)
    → a.starts_at ≤ b.starts_at
    → NotAfter b rows
    → NotAfter a rows
NotAfter-trans a b [] h rest = tt
NotAfter-trans a b (x ∷ rows) h rest = (omega (arith, rest.0), NotAfter-trans a b rows h rest.1)

module _ (p : Booking → Bool) where
  -- The head of the ordered rows.
  abbrev Leads : List Booking → List Booking → Type 0
  Leads rows [] = rows ≡ []
  Leads rows (y ∷ ys) = (p y ≡ true) × NotAfter y rows × Mem y rows

  Leads-insert_by :
      (x : Booking) (rows ordered : List Booking)
      → p x ≡ true
      → Leads rows ordered
      → Leads (x ∷ rows) (insert_by starts_before x ordered)
  Leads-insert_by x rows [] hx empty = (hx, (omega arith, rw empty tt), mem-cons_self)
  Leads-insert_by x rows (y ∷ ys) hx leads = elim (Bool-cases (starts_before x y)) [
    | inl first ↦
        let le : x.starts_at ≤ y.starts_at = ground arith in
        rw first (hx, (omega arith, NotAfter-trans x y rows le leads.1), mem-cons_self)
    | inr second ↦
        let le : y.starts_at ≤ x.starts_at = ground arith in
        rw second (leads.0, (le, leads.1), mem-cons_of_mem x leads.2)
  ]

  Leads-order_by :
      (rows : List Booking) → Leads (filter_by p rows) (order_by starts_before (filter_by p rows))
  Leads-order_by [] = refl
  Leads-order_by (x ∷ rows) = elim (Bool-cases (p x)) [
    | inl hit ↦ rw hit (Leads-insert_by x (filter_by p rows) _ hit (Leads-order_by rows))
    | inr miss ↦ rw miss (Leads-order_by rows)
  ]

  Mem-filter_by : (b : Booking) (rows : List Booking) → Mem b (filter_by p rows) → Mem b rows
  Mem-filter_by b [] h = h
  Mem-filter_by b (x ∷ rows) h = elim (Bool-cases (p x)) [
    | inl hit ↦
        let here : Mem b (x ∷ filter_by p rows) = rw hit at h in
        Or.elim (Mem-prop {a = b} {l = x ∷ rows}) (mem-cons.0 here) (λ e. rw e mem-cons_self)
          (λ later. mem-cons_of_mem x (Mem-filter_by b rows later))
    | inr miss ↦ mem-cons_of_mem x (Mem-filter_by b rows (rw miss at h))
  ]

module _ (env : Env) (business_id tenant_id customer_id : ℕ) where
  abbrev P : Booking → Bool
  P = is_upcoming env business_id tenant_id customer_id

  abbrev Else : Booking → Type 0
  Else = NotUpcoming env business_id tenant_id customer_id

  Upcoming-holds : (b : Booking) → P b ≡ true → Upcoming env business_id tenant_id customer_id b
  Upcoming-holds b h = record {
    its_business = ground arith;
    its_tenant = ground arith;
    its_customer = ground arith;
    its_status = is_confirmed_lem b.status (ground arith);
    ahead = ground arith;
  }

  unconfirmed : (b : Booking) → is_confirmed b.status ≡ false → Else b
  unconfirmed b h = by_status b.status refl h
    where
      by_status :
          (status : BookingStatus) → b.status ≡ status → is_confirmed status ≡ false → Else b
      by_status BookingStatus.confirmed e f = cc
      by_status BookingStatus.cancelled e f = called_off e
      by_status BookingStatus.pending_payment e f = on_hold e

  NotUpcoming-fails : (b : Booking) → P b ≡ false → Else b
  NotUpcoming-fails b h = elim (Bool-cases (b.business_id == business_id)) [
    | inr differs ↦ other_business (λ (e : b.business_id ≡ business_id). ground arith)
    | inl same_business ↦ elim (Bool-cases (b.tenant_id == tenant_id)) [
      | inr differs ↦ other_tenant (λ (e : b.tenant_id ≡ tenant_id). ground arith)
      | inl same_tenant ↦ elim (Bool-cases (b.customer_id == customer_id)) [
        | inr differs ↦ other_customer (λ (e : b.customer_id ≡ customer_id). ground arith)
        | inl same_customer ↦ elim (Bool-cases (ltb env.now b.starts_at)) [
          | inr differs ↦ begun (ground arith)
          | inl still_ahead ↦ unconfirmed b (ground arith)
        ]
      ]
    ]
  ]

  none_left : (rows : List Booking) → filter_by P rows ≡ [] → All Else rows
  none_left [] h = tt
  none_left (x ∷ rows) h = elim (Bool-cases (P x)) [
    | inl hit ↦ let filled : x ∷ filter_by P rows ≡ [] = rw hit at h in cc
    | inr miss ↦ (NotUpcoming-fails x miss, none_left rows (rw miss at h))
  ]

  not_before :
      (b : Booking) (rows : List Booking)
      → NotAfter b (filter_by P rows)
      → All (λ (x : Booking). Else x ⊎ (b.starts_at ≤ x.starts_at)) rows
  not_before b [] h = tt
  not_before b (x ∷ rows) h = elim (Bool-cases (P x)) [
    | inl hit ↦
        let both : NotAfter b (x ∷ filter_by P rows) = rw hit at h in
        (inr both.0, not_before b rows both.1)
    | inr miss ↦ (inl (NotUpcoming-fails x miss), not_before b rows (rw miss at h))
  ]

  First-head :
      (rows ordered : List Booking)
      → Leads P (filter_by P rows) ordered
      → First env business_id tenant_id customer_id rows (head ordered)
  First-head rows [] empty = nobody (none_left rows empty)
  First-head rows (y ∷ ys) leads =
      somebody (Mem-filter_by P y rows leads.2) (Upcoming-holds y leads.0)
        (not_before y rows leads.1)

-- The next booking of a customer is a row of the table, a confirmed booking of theirs with this
-- business that has not begun, and none of those begins before it; where there is none, no row is
-- such a booking.
pub get_next_confirmed_booking-First :
    (env : Env) (db : Db) (business_id tenant_id customer_id : ℕ)
    → First env business_id tenant_id customer_id db.bookings
        (get_next_confirmed_booking env db business_id tenant_id customer_id)
unfolding get_next_confirmed_booking
get_next_confirmed_booking-First env db business_id tenant_id customer_id =
    First-head env business_id tenant_id customer_id db.bookings _
      (Leads-order_by (is_upcoming env business_id tenant_id customer_id) db.bookings)
