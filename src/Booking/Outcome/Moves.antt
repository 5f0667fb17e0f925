-- ===== src/Booking/Outcome/Moves.antt =====
-- What the calls of app/services/booking_service.py do to the table of bookings when they return.
use mathlib.Core.Path.{subst}
use appointment_voice_saas.Common.{
  ℕ, String, Option, none, some, List, ◌∷◌, Bool, true, false, ◌≡◌, refl, find_by,
}
use appointment_voice_saas.Tables.{Booking, BookingStatus, AuditAction}
use appointment_voice_saas.Errors.{ok}
use appointment_voice_saas.Session.{Session}
use appointment_voice_saas.Session.Frames.{Gives-pure, Frames-read, Frames-fresh_id, Frames-modify}
use appointment_voice_saas.Session.Lands.{
  Lands, Lands-frame, Lands-read, Lands-bind, Lands-commit, Lands-then,
}
use appointment_voice_saas.Env.{Env}
use appointment_voice_saas.Audit.{create_audit_log}
use appointment_voice_saas.Booking.Reads.{is_booking}
use appointment_voice_saas.Booking.Invariance.Parts.{found_row}
use appointment_voice_saas.Booking.Create.{
  BookingRequest, create_booking, create_pending_payment_hold,
}
use appointment_voice_saas.Booking.Cancel.{
  cancel_booking, expire_pending_payment_hold, hold_expired,
}
use appointment_voice_saas.Booking.Reschedule.{reschedule_booking, rescheduled_request}
use appointment_voice_saas.Booking.Outcome.Landing.{
  cancelled_in, Created, Lands-cancel_booking, Lands-expire_pending_payment_hold,
  Lands-create_booking, Lands-create_pending_payment_hold, found_id,
}

-- When a creation returns a booking, what is committed is the earlier bookings with the new one in
-- front: confirmed, and for the tenant, business, customer, service, staff and start that were
-- asked for.
pub create_booking-Created :
    (env : Env) (r : BookingRequest) (actor_id : Option ℕ) (override : Bool)
    (reason : Option String) (s : Session) (b : Booking)
    → (create_booking env r actor_id override reason s).0 ≡ ok b
    → Created r BookingStatus.confirmed s.db.bookings b
        (create_booking env r actor_id override reason s).1.committed.bookings
create_booking-Created env r actor_id override reason s b returned =
    ((Lands-create_booking env r actor_id override reason s.db.bookings).lands s b refl returned).0

-- When a payment hold is created, what is committed is the earlier bookings with the new one in
-- front: pending payment, and for what was asked for.
pub create_pending_payment_hold-Created :
    (env : Env) (r : BookingRequest) (provider : String) (provider_session_id : Option String)
    (s : Session) (b : Booking)
    → (create_pending_payment_hold env r provider provider_session_id s).0 ≡ ok b
    → Created r BookingStatus.pending_payment s.db.bookings b
        (create_pending_payment_hold env r provider provider_session_id s).1.committed.bookings
create_pending_payment_hold-Created env r provider provider_session_id s b returned =
    ((Lands-create_pending_payment_hold env r provider provider_session_id s.db.bookings).lands s b
      refl returned).0

-- When a cancellation returns, what is committed is the earlier bookings, with the one of the given
-- id cancelled for the given reason and no other changed.
pub cancel_booking-cancelled_in :
    (env : Env) (booking_id business_id tenant_id : ℕ) (reason : Option String)
    (actor_id : Option ℕ) (override : Bool) (s : Session) (b : Booking)
    → (cancel_booking env booking_id business_id tenant_id reason actor_id override s).0 ≡ ok b
    → (cancel_booking env booking_id business_id tenant_id reason actor_id override
        s).1.committed.bookings
      ≡ cancelled_in booking_id reason s.db.bookings
cancel_booking-cancelled_in env booking_id business_id tenant_id reason actor_id override s b
      returned =
    ((Lands-cancel_booking env booking_id business_id tenant_id reason actor_id override
        s.db.bookings).lands
      s b refl returned).0

-- When the expiry of a hold returns, what is committed is the earlier bookings, with the one of the
-- given id cancelled as an expired hold and no other changed.
pub expire_pending_payment_hold-cancelled_in :
    (env : Env) (booking_id business_id tenant_id : ℕ) (s : Session) (b : Booking)
    → (expire_pending_payment_hold env booking_id business_id tenant_id s).0 ≡ ok b
    → (expire_pending_payment_hold env booking_id business_id tenant_id s).1.committed.bookings
      ≡ cancelled_in booking_id hold_expired s.db.bookings
expire_pending_payment_hold-cancelled_in env booking_id business_id tenant_id s b returned =
    ((Lands-expire_pending_payment_hold env booking_id business_id tenant_id s.db.bookings).lands s
      b refl returned).0

Lands-create_audit_log :
    {G : List Booking → Type 0} (env : Env) (t : ℕ) (a : Option ℕ) (act : AuditAction)
    (b : Option ℕ) (source : Option String) (rows : List Booking)
    → G rows
    → Lands (λ _ found. G found) rows (create_audit_log env t a act b source true)
unfolding create_audit_log
Lands-create_audit_log env t a act b source rows reached =
    Lands-frame _ _ Frames-fresh_id λ id.
      Lands-frame _ _ (Frames-modify _ λ db. refl) λ _. Lands-commit _ _ reached (Gives-pure _)

-- The new booking of a move stands in front of the table in which the old one is cancelled, and is
-- for the same customer, service and staff.
pub record MovedTo (booking_id tenant_id new_starts_at : ℕ) (reason : Option String)
    (rows : List Booking) (b : Booking) (found : List Booking) : Type 0 where
  pub old : Booking
  pub its_old : find_by (is_booking booking_id tenant_id) rows ≡ some old
  pub its_rows : found ≡ b ∷ cancelled_in booking_id reason rows
  pub its_tenant : b.tenant_id ≡ tenant_id
  pub its_business : b.business_id ≡ old.business_id
  pub its_customer : b.customer_id ≡ old.customer_id
  pub its_service : b.service_id ≡ old.service_id
  pub its_staff : b.staff_id ≡ old.staff_id
  pub its_start : b.starts_at ≡ new_starts_at
  pub its_status : b.status ≡ BookingStatus.confirmed

Lands-reschedule_booking :
    (env : Env) (lineage : ℕ → String) (i business_id t at : ℕ) (reason : Option String)
    (a : Option ℕ) (source : String) (rows : List Booking)
    → Lands
        (MovedTo i t at reason rows)
        rows
        (reschedule_booking env lineage i business_id t at reason a source)
unfolding reschedule_booking
Lands-reschedule_booking env lineage i business_id t at reason a source rows =
    Lands-read _ _ λ db (old : Booking) here e. Lands-frame _ _ (Frames-read _) λ _.
      Lands-bind _ _ (Lands-cancel_booking env old.id business_id t reason a false rows)
        λ _ cancelled same.
          Lands-bind _ _
            (Lands-create_booking env (rescheduled_request old t at source) a false none cancelled)
            λ new found created.
              let moved : MovedTo i t at reason rows new found = record {
                old = old;
                its_old =
                    subst (λ (bs : List Booking). find_by (is_booking i t) bs ≡ some old) here
                      (found_row db i business_id t e);
                its_rows = rw (← found_id db i business_id t e, ← same) created.0;
                its_tenant = created.1.its_tenant;
                its_business = created.1.its_business;
                its_customer = created.1.its_customer;
                its_service = created.1.its_service;
                its_staff = created.1.its_staff;
                its_start = created.1.its_start;
                its_status = created.1.its_status;
              } in
              Lands-then _ _ new
                (Lands-create_audit_log {G = MovedTo i t at reason rows new} env t a _ _ _ found
                  moved)
                λ _. Gives-pure new

-- When a move returns, the old booking is cancelled for the given reason, no other has changed, and
-- the new one stands in front, confirmed at the new time, for the same customer, service and staff
-- member.
pub reschedule_booking-MovedTo :
    (env : Env) (lineage : ℕ → String) (booking_id business_id tenant_id new_starts_at : ℕ)
    (reason : Option String) (actor_id : Option ℕ) (source : String) (s : Session) (b : Booking)
    → (reschedule_booking env lineage booking_id business_id tenant_id new_starts_at reason actor_id
        source s).0
      ≡ ok b
    → MovedTo booking_id tenant_id new_starts_at reason s.db.bookings b
        (reschedule_booking env lineage booking_id business_id tenant_id new_starts_at reason
          actor_id source s).1.committed.bookings
reschedule_booking-MovedTo env lineage booking_id business_id tenant_id new_starts_at reason
      actor_id source s b returned =
    ((Lands-reschedule_booking env lineage booking_id business_id tenant_id new_starts_at reason
        actor_id source s.db.bookings).lands
      s b refl returned).0
