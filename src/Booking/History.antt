-- ===== src/Booking/History.antt =====
-- What may become of a booking under the calls of app/services/booking_service.py.
use mathlib.Core.Path.{subst}
use appointment_voice_saas.Common.{
  ℕ, String, Option, none, some, List, [], ◌∷◌, Bool, true, false, ◌≡◌, refl, sym, if◌then◌else◌,
  any_of, find_by, update_where, arith, ◌==◌, ==_iff, All, All-find_by, ap, Bool-cases, inl, inr,
}
use appointment_voice_saas.Tables.{Db, Booking, BookingStatus}
use appointment_voice_saas.Session.{Session}
use appointment_voice_saas.Env.{Env}
use appointment_voice_saas.Booking.Overlap.Exclusion.{UniqueIds, UniqueIds-update, unique_row}
use appointment_voice_saas.Booking.Reads.{is_booking}
use appointment_voice_saas.Booking.Payment.{confirm_row}
use appointment_voice_saas.Booking.Cancel.{cancel_row}
use appointment_voice_saas.Booking.Calls.{Call, perform}
use appointment_voice_saas.Booking.Invariance.{Stable, perform-Keeps}

-- The edges of a booking's status, and their composites.
pub data MovesTo : BookingStatus → BookingStatus → Type 0 where
  stays : {s : BookingStatus} → MovesTo s s
  is_paid : MovesTo BookingStatus.pending_payment BookingStatus.confirmed
  is_dropped : {s : BookingStatus} → MovesTo s BookingStatus.cancelled

-- `c` is a later version of the booking `b`.
pub record Becomes (b c : Booking) : Type 0 where
  pub same_id : c.id ≡ b.id
  pub same_tenant : c.tenant_id ≡ b.tenant_id
  pub same_business : c.business_id ≡ b.business_id
  pub same_customer : c.customer_id ≡ b.customer_id
  pub same_service : c.service_id ≡ b.service_id
  pub same_staff : c.staff_id ≡ b.staff_id
  pub same_start : c.starts_at ≡ b.starts_at
  pub same_end : c.ends_at ≡ b.ends_at
  pub moved : MovesTo b.status c.status

abbrev pub row_of : ℕ → List Booking → Option Booking
row_of i = find_by (λ (b : Booking). b.id == i)

-- A later version of the booking is still in the table, under its id.
abbrev pub Survives : List Booking → Booking → Type 0
Survives bs b = (c : Booking) × (row_of b.id bs ≡ some c) × Becomes b c

-- Every booking of the earlier table survives in the later one, whose ids are unique.
abbrev pub Continues : List Booking → List Booking → Type 0
Continues before bs = All (Survives bs) before × UniqueIds bs

Becomes-refl : (b : Booking) → Becomes b b
Becomes-refl b = record {
  same_id = refl;
  same_tenant = refl;
  same_business = refl;
  same_customer = refl;
  same_service = refl;
  same_staff = refl;
  same_start = refl;
  same_end = refl;
  moved = stays;
}

Becomes-cancel :
    (b c : Booking) (reason : Option String) → Becomes b c → Becomes b (cancel_row reason c)
Becomes-cancel b c reason h = record {
  same_id = h.same_id;
  same_tenant = h.same_tenant;
  same_business = h.same_business;
  same_customer = h.same_customer;
  same_service = h.same_service;
  same_staff = h.same_staff;
  same_start = h.same_start;
  same_end = h.same_end;
  moved = is_dropped;
}

pays :
    {s t : BookingStatus}
    → MovesTo s t
    → t ≡ BookingStatus.pending_payment
    → MovesTo s BookingStatus.confirmed
pays {s = BookingStatus.pending_payment} stays e = is_paid
pays {s = BookingStatus.confirmed} stays e = cc
pays {s = BookingStatus.cancelled} stays e = cc
pays is_paid e = cc
pays is_dropped e = cc

Becomes-confirm :
    (b c : Booking)
    → c.status ≡ BookingStatus.pending_payment
    → Becomes b c
    → Becomes b (confirm_row c)
Becomes-confirm b c waits h = record {
  same_id = h.same_id;
  same_tenant = h.same_tenant;
  same_business = h.same_business;
  same_customer = h.same_customer;
  same_service = h.same_service;
  same_staff = h.same_staff;
  same_start = h.same_start;
  same_end = h.same_end;
  moved = pays h.moved waits;
}

row_present :
    (i : ℕ) (bs : List Booking) (c : Booking)
    → row_of i bs ≡ some c
    → any_of (λ (b : Booking). b.id == i) bs ≡ true
row_present i [] c e = cc
row_present i (x ∷ bs) c e = ground (arith, row_present i bs c)

abbrev relabel : ℕ → (Booking → Booking) → Option Booking → Option Booking
relabel j f none = none
relabel j f (some b) = some (if b.id == j then f b else b)

row_of-insert :
    (i : ℕ) (n : Booking) (bs : List Booking) (c : Booking)
    → any_of (λ (b : Booking). b.id == n.id) bs ≡ false
    → row_of i bs ≡ some c
    → row_of i (n ∷ bs) ≡ some c
row_of-insert i n bs c fresh e = elim (Bool-cases (n.id == i)) [
  | inl same ↦
      let twice : any_of (λ (b : Booking). b.id == n.id) bs ≡ true =
        rw ((==_iff n.id i).0 same) (row_present i bs c e) in
      cc
  | inr other ↦ rw other e
]

updated-id :
    (j : ℕ) (f : Booking → Booking) (b : Booking)
    → ((b : Booking) → (f b).id ≡ b.id)
    → (if b.id == j then f b else b).id ≡ b.id
updated-id j f b keeps = pick (b.id == j)
  where
    pick : (t : Bool) → (if t then f b else b).id ≡ b.id
    pick true = keeps b
    pick false = refl

row_of-update :
    (i j : ℕ) (f : Booking → Booking) (bs : List Booking) (c : Booking)
    → ((b : Booking) → (f b).id ≡ b.id)
    → row_of i bs ≡ some c
    → row_of i (update_where (λ (b : Booking). b.id == j) f bs)
      ≡ some (if c.id == j then f c else c)
row_of-update i j f [] c keeps e = cc
row_of-update i j f (x ∷ bs) c keeps e = elim (Bool-cases (x.id == i)) [
  | inl hit ↦
      let first : some x ≡ some c = rw hit at e in
      rw (updated-id j f x keeps, hit) (ap (λ (o : Option Booking). relabel j f o) first)
  | inr miss ↦
      let later : row_of i bs ≡ some c = rw miss at e in
      rw (updated-id j f x keeps, miss) (row_of-update i j f bs c keeps later)
]

Survives-insert :
    (n : Booking) (bs rows : List Booking)
    → any_of (λ (b : Booking). b.id == n.id) bs ≡ false
    → All (Survives bs) rows
    → All (Survives (n ∷ bs)) rows
Survives-insert n bs [] fresh h = tt
Survives-insert n bs (b ∷ rows) fresh h =
    let (c, e, later) = h.0 in
    ((c, row_of-insert b.id n bs c fresh e, later), Survives-insert n bs rows fresh h.1)

Survives-update :
    (j : ℕ) (f : Booking → Booking) (bs rows : List Booking)
    → ((b : Booking) → (f b).id ≡ b.id)
    → ((b c : Booking)
        → (c.id == j) ≡ true
        → row_of b.id bs ≡ some c
        → Becomes b c
        → Becomes b (f c))
    → All (Survives bs) rows
    → All (Survives (update_where (λ (b : Booking). b.id == j) f bs)) rows
Survives-update j f bs [] keeps step h = tt
Survives-update j f bs (b ∷ rows) keeps step h =
    let (c, e, later) = h.0 in
    (
      (
        (if c.id == j then f c else c),
        row_of-update b.id j f bs c keeps e,
        pick c (c.id == j) (λ hit. step b c hit e later) later,
      ),
      Survives-update j f bs rows keeps step h.1,
    )
  where
    pick :
        (c : Booking) (t : Bool)
        → (t ≡ true → Becomes b (f c))
        → Becomes b c
        → Becomes b (if t then f c else c)
    pick c true k l = k refl
    pick c false k l = l

-- In a table with unique ids the row under an id is the one that the tenant's lookup finds.
waits_at :
    (i t : ℕ) (b c : Booking) (bs : List Booking) (n : ℕ)
    → UniqueIds bs
    → find_by (is_booking i t) bs ≡ some b
    → row_of n bs ≡ some c
    → c.id ≡ b.id
    → c ≡ b
waits_at i t b c bs n unique e found hit =
    All-find_by (λ (d : Booking). (d.id == b.id) ≡ true → d ≡ b) (λ (d : Booking). d.id == n) bs c
      (unique_row i t bs b unique e) found ((==_iff c.id b.id).1 hit)

Continues-Stable : (env : Env) (before : List Booking) → Stable env (Continues before)
Continues-Stable env before = record {
  inserted = λ b bs apart fresh h. (Survives-insert b bs before fresh h.0, (fresh, h.1));
  cancelled = λ i reason bs h. (
    Survives-update i (cancel_row reason) bs before (λ _. refl)
        (λ b c _ _ later. Becomes-cancel b c reason later) h.0,
    UniqueIds-update _ (cancel_row reason) (λ _. refl) bs h.1,
  );
  confirmed = λ i t b bs e waits h. (
    Survives-update b.id confirm_row bs before (λ _. refl)
        (λ a c hit found later.
          let same : c ≡ b = waits_at i t b c bs a.id h.1 e found ((==_iff c.id b.id).0 hit) in
          Becomes-confirm a c (rw same waits) later)
        h.0,
    UniqueIds-update _ confirm_row (λ _. refl) bs h.1,
  );
}

-- Where ids are unique, every row is the one under its id.
Survives-refl : (bs : List Booking) → UniqueIds bs → All (Survives bs) bs
Survives-refl [] u = tt
Survives-refl (b ∷ bs) u = (
  (b, (rw ((==_iff b.id b.id).1 refl)), Becomes-refl b),
  Survives-insert b bs bs u.0 (Survives-refl bs u.1),
)

-- From a committed table with unique ids on, whatever the call does and whether it returns or
-- raises: every booking is still there under its id, with the same tenant, business, customer,
-- service, staff and times, and its status has stayed, gone from a payment hold to confirmed, or
-- gone to cancelled. The ids are still unique.
pub perform-Continues :
    (env : Env) (call : Call) (s : Session)
    → s.db ≡ s.committed
    → UniqueIds s.committed.bookings
    → Continues s.committed.bookings (perform env call s).1.committed.bookings
perform-Continues env call s clean unique =
    let start : Continues s.committed.bookings s.committed.bookings =
      (Survives-refl s.committed.bookings unique, unique) in
    ((perform-Keeps (record { beside = λ calls. Continues-Stable env s.committed.bookings })
        call).at
      s
      (subst (λ (db : Db). Continues s.committed.bookings db.bookings) (sym clean) start, start)).1
