-- ===== src/Booking/Outcome/Landing.antt =====
-- Creation, cancellation and expiry, when they return: the table of bookings that is committed.
use mathlib.Core.Path.{subst}
use appointment_voice_saas.Common.{
  ℕ, ◌+◌, String, Option, List, ◌∷◌, Bool, ◌≡◌, refl, ap, ◌==◌, update_where,
}
use appointment_voice_saas.Tables.{Db, Booking, BookingStatus, Business, Customer, Service, minutes}
use appointment_voice_saas.Errors.{ok}
use appointment_voice_saas.Session.Frames.{
  Frames-modify, frame_rules, Gives-bind, Gives-pure, Outside-bind, Outside-pure, Frames-read,
  Frames-fresh_id,
}
use appointment_voice_saas.Session.Lands.{
  Lands, Lands-frame, Lands-read, Lands-modify, Lands-commit_rows, Lands-commit, Lands-step, Steps,
  Steps-frame, Steps-modify, Lands-catch_overlap, Lands-then,
}
use appointment_voice_saas.Env.{Env}
use appointment_voice_saas.Booking.Overlap.Exclusion.{found_elsewhere}
use appointment_voice_saas.Booking.Invariance.Parts.{found_row}
use appointment_voice_saas.Booking.Overlap.{insert_booking, add_booking}
use appointment_voice_saas.Booking.Reads.{require_booking_in_business, update_booking}
use appointment_voice_saas.Booking.Create.{
  BookingRequest, new_booking, write_booking, create_booking, write_hold,
  create_pending_payment_hold,
}
use appointment_voice_saas.Booking.Cancel.{
  cancel_row, write_cancellation, cancel_booking, hold_expired, expire_pending_payment_hold,
}
use appointment_voice_saas.Booking.Outcome.Frames.{
  Frames-fail, Frames-create_audit_log, Frames-enqueue_booking_confirmation,
  Frames-enqueue_booking_cancellation, Frames-enqueue_calendar_event, Frames-offer_first,
  Frames-offer_expired, Outside-enqueue_all, Outside-enqueue_sync, Outside-enqueue_calendar_cancel,
}

ruleset call_frames = (
  frame_rules, Frames-fail, Frames-create_audit_log, Frames-enqueue_booking_confirmation,
  Frames-enqueue_booking_cancellation, Frames-enqueue_calendar_event, Frames-offer_first,
  Frames-offer_expired,
)

ruleset after_commit = (
  Outside-bind, Outside-pure, Outside-enqueue_all, Outside-enqueue_sync,
  Outside-enqueue_calendar_cancel,
)

ruleset after_queue = (Outside-enqueue_all, Outside-enqueue_sync)

-- The cancelled row under an id, the others as they were.
abbrev pub cancelled_in : ℕ → Option String → List Booking → List Booking
cancelled_in i reason rows =
    update_where (λ (b : Booking). b.id == i)
      (λ (b : Booking). record b { status = BookingStatus.cancelled; cancel_reason = reason }) rows

updates :
    (i : ℕ) (reason : Option String) (rows : List Booking) (db : Db)
    → db.bookings ≡ rows
    → (update_booking i (cancel_row reason) db).bookings ≡ cancelled_in i reason rows
updates i reason rows db at = ap (cancelled_in i reason) at

Lands-write_cancellation :
    (env : Env) (t : ℕ) (reason : Option String) (a : Option ℕ) (override : Bool) (b : Booking)
    (rows : List Booking)
    → Lands
        (λ _ found. found ≡ cancelled_in b.id reason rows)
        rows
        (write_cancellation env t reason a override b)
unfolding write_cancellation
Lands-write_cancellation env t reason a override b rows =
    Lands-modify _ (cancelled_in b.id reason rows) _ (updates b.id reason rows)
      (search (call_frames, after_commit, Lands-frame, Lands-commit_rows) depth 40)

pub found_id :
    (db : Db) (i business_id t : ℕ) {b : Booking}
    → require_booking_in_business db i business_id t ≡ ok b
    → b.id ≡ i
found_id db i business_id t h =
    (found_elsewhere i t db.bookings _ (found_row db i business_id t h)).0

pub Lands-cancel_booking :
    (env : Env) (i business_id t : ℕ) (reason : Option String) (a : Option ℕ) (override : Bool)
    (rows : List Booking)
    → Lands
        (λ _ found. found ≡ cancelled_in i reason rows)
        rows
        (cancel_booking env i business_id t reason a override)
unfolding cancel_booking
Lands-cancel_booking env i business_id t reason a override rows =
    Lands-frame _ _ (Frames-read _) λ _. Lands-read _ _ λ db b at e.
      Lands-frame _ _ (Frames-read _) λ _.
        subst
          (λ (j : ℕ).
            Lands (λ _ found. found ≡ cancelled_in j reason rows) rows
              (write_cancellation env t reason a override b))
          (found_id db i business_id t e) (Lands-write_cancellation env t reason a override b rows)

pub Lands-expire_pending_payment_hold :
    (env : Env) (i business_id t : ℕ) (rows : List Booking)
    → Lands
        (λ _ found. found ≡ cancelled_in i hold_expired rows)
        rows
        (expire_pending_payment_hold env i business_id t)
unfolding expire_pending_payment_hold
Lands-expire_pending_payment_hold env i business_id t rows = Lands-read _ _ λ db b at e.
    Lands-frame _ _ (Frames-read _) λ _.
      Lands-modify _ (cancelled_in i hold_expired rows) _
        (λ later same. rw (found_id db i business_id t e) (updates i hold_expired rows later same))
        (search (call_frames, after_commit, Lands-frame, Lands-commit_rows) depth 40)

Steps-insert_booking :
    (env : Env) (b : Booking) (rows : List Booking) → Steps rows (b ∷ rows) (insert_booking env b)
unfolding insert_booking
Steps-insert_booking env b rows = Steps-frame _ _ (Frames-read _) λ _.
    Steps-frame _ _ (Frames-read _) λ _.
      Steps-modify rows (b ∷ rows) (add_booking b) λ db at. ap (λ (bs : List Booking). b ∷ bs) at

-- The booking is what was asked for.
pub record IsFor (r : BookingRequest) (status : BookingStatus) (b : Booking) : Type 0 where
  pub its_tenant : b.tenant_id ≡ r.tenant_id
  pub its_business : b.business_id ≡ r.business_id
  pub its_customer : b.customer_id ≡ r.customer_id
  pub its_service : b.service_id ≡ r.service_id
  pub its_staff : b.staff_id ≡ r.staff_id
  pub its_start : b.starts_at ≡ r.starts_at
  pub its_status : b.status ≡ status

-- The booking that a call returns stands in front of the earlier ones.
abbrev pub Created : BookingRequest → BookingStatus → List Booking → Booking → List Booking → Type 0
Created r status rows b found = (found ≡ b ∷ rows) × IsFor r status b

IsFor-new_booking :
    (env : Env) (r : BookingRequest) (status : BookingStatus) (ends_at id : ℕ)
    → IsFor r status (new_booking env r status ends_at id)
IsFor-new_booking env r status ends_at id = record {
  its_tenant = refl;
  its_business = refl;
  its_customer = refl;
  its_service = refl;
  its_staff = refl;
  its_start = refl;
  its_status = refl;
}

Lands-write_booking :
    (env : Env) (r : BookingRequest) (a : Option ℕ) (override : Bool) (reason : Option String)
    (bus : Business) (c : Customer) (svc : Service) (rows : List Booking)
    → Lands
        (Created r BookingStatus.confirmed rows)
        rows
        (write_booking env r a override reason bus c svc)
unfolding write_booking
Lands-write_booking env r a override reason bus c svc rows = Lands-frame _ _ Frames-fresh_id λ id.
    let b : Booking =
      new_booking env r BookingStatus.confirmed (r.starts_at + minutes svc.duration_minutes) id in
    let asked : IsFor r BookingStatus.confirmed b = IsFor-new_booking env r _ _ id in
    Lands-step _ _ (Steps-insert_booking env b rows) λ _. Lands-frame _ _ (search call_frames) λ _.
      Lands-frame _ _ (search call_frames) λ intents.
        Lands-then _ _ b
          (Lands-catch_overlap _ (
            Lands-frame _ _ (search call_frames)
              λ event. Lands-commit event _ (refl, asked) (Gives-pure event)))
          λ event. search (after_queue, Gives-bind, Gives-pure)

pub Lands-create_booking :
    (env : Env) (r : BookingRequest) (a : Option ℕ) (override : Bool) (reason : Option String)
    (rows : List Booking)
    → Lands (Created r BookingStatus.confirmed rows) rows (create_booking env r a override reason)
unfolding create_booking
Lands-create_booking env r a override reason rows =
    search (Lands-frame, Frames-read, Lands-write_booking) depth 12

Lands-write_hold :
    (env : Env) (r : BookingRequest) (provider : String) (provider_session : Option String)
    (svc : Service) (amount : ℕ) (currency : String) (rows : List Booking)
    → Lands
        (Created r BookingStatus.pending_payment rows)
        rows
        (write_hold env r provider provider_session svc amount currency)
unfolding write_hold
Lands-write_hold env r provider provider_session svc amount currency rows =
    Lands-frame _ _ Frames-fresh_id λ id.
      let b : Booking =
        new_booking env r BookingStatus.pending_payment (r.starts_at + minutes svc.duration_minutes)
          id in
      let asked : IsFor r BookingStatus.pending_payment b = IsFor-new_booking env r _ _ id in
      Lands-step _ _ (Steps-insert_booking env b rows) λ _.
        Lands-frame _ _ Frames-fresh_id λ payment_id. Lands-frame _ _ (Frames-read _) λ _.
          Lands-frame _ _ (Frames-modify _ λ db. refl) λ _.
            Lands-frame _ _ (search call_frames) λ _. Lands-commit b _ (refl, asked) (Gives-pure b)

pub Lands-create_pending_payment_hold :
    (env : Env) (r : BookingRequest) (provider : String) (provider_session : Option String)
    (rows : List Booking)
    → Lands
        (Created r BookingStatus.pending_payment rows)
        rows
        (create_pending_payment_hold env r provider provider_session)
unfolding create_pending_payment_hold
Lands-create_pending_payment_hold env r provider provider_session rows =
    search (Lands-frame, Frames-read, Lands-catch_overlap, Lands-write_hold) depth 12
