-- ===== src/Booking/Outcome/Failures.antt =====
-- What is left behind when a move fails half way, and what a lost race for a slot raises.
use appointment_voice_saas.Common.{
  ℕ, ◌+◌, String, Option, none, List, ◌++◌, Bool, true, false, ◌≡◌, refl, ◌∙◌, ap, any_of,
  any_of-append, ◌==◌, ◌≢◌,
}
use appointment_voice_saas.Tables.{Db, Booking, BookingStatus, Business, Customer, Service, minutes}
use appointment_voice_saas.Errors.{
  Error, ok, err, conflict, integrity_error, redis_error, no_overlapping_staff_bookings,
}
use appointment_voice_saas.Lookups.{
  require_business, require_customer_in_business, require_service_in_business,
}
use appointment_voice_saas.Session.{Session, ◌>>=◌, catch_overlap}
use appointment_voice_saas.Session.Atomic.{Left, nothing_done, not_pushed}
use appointment_voice_saas.Session.Raises.{raises_fourth}
use appointment_voice_saas.Env.{Env}
use appointment_voice_saas.Booking.Overlap.{check_double_booking, insert_booking, excludes}
use appointment_voice_saas.Booking.Reads.{require_booking_in_business}
use appointment_voice_saas.Booking.Create.{
  BookingRequest, create_booking, create_pending_payment_hold, write_booking, write_hold,
  new_booking, require_staff_if_given, deposit_of,
}
use appointment_voice_saas.Booking.Cancel.{cancel_booking}
use appointment_voice_saas.Booking.Reschedule.{reschedule_booking, rescheduled_request}
use appointment_voice_saas.Booking.Atomicity.{Atomic-create_booking}
use appointment_voice_saas.Booking.Outcome.Landing.{cancelled_in, found_id}
use appointment_voice_saas.Booking.Outcome.Moves.{cancel_booking-cancelled_in}

kept_committed :
    (s t : Session) (e : Error) → e ≢ redis_error → Left e s t → t.committed ≡ s.committed
kept_committed s t e other (nothing_done same) = same.0
kept_committed s t e other (not_pushed refused shut) = absurd (other refused)

-- If the old booking of a move is confirmed, its cancellation returns and the creation of the new
-- one then raises, for another reason than a push that Redis refuses, the move raises that error,
-- and what stays committed is the table with the old booking cancelled and no new one.
pub reschedule_booking_half :
    (env : Env) (lineage : ℕ → String) (booking_id business_id tenant_id new_starts_at : ℕ)
    (reason : Option String) (actor_id : Option ℕ) (source : String) (s : Session)
    (old cancelled : Booking) (e : Error)
    → require_booking_in_business s.db booking_id business_id tenant_id ≡ ok old
    → old.status ≡ BookingStatus.confirmed
    → (cancel_booking env old.id business_id tenant_id reason actor_id false s).0 ≡ ok cancelled
    → (create_booking env
        (rescheduled_request old tenant_id new_starts_at source)
        actor_id
        false
        none
        (cancel_booking env old.id business_id tenant_id reason actor_id false s).1).0
      ≡ err e
    → e ≢ redis_error
    → let moved =
        reschedule_booking env lineage booking_id business_id tenant_id new_starts_at reason
          actor_id source s in
      (moved.0 ≡ err e)
      × (moved.1.committed.bookings ≡ cancelled_in booking_id reason s.db.bookings)
unfolding reschedule_booking
reschedule_booking_half env lineage booking_id business_id tenant_id new_starts_at reason actor_id
      source s old cancelled e found confirmed first second other =
    let (raised, left) =
      raises_fourth cancelled e
        (λ db. require_booking_in_business db booking_id business_id tenant_id) _ _ _ _ s old found
        (rw confirmed) first second in
    let after : Session =
      (cancel_booking env old.id business_id tenant_id reason actor_id false s).1 in
    let left_behind =
      (Atomic-create_booking env (rescheduled_request old tenant_id new_starts_at source) actor_id
          false none).on_error
        after e second in
    (
      raised,
      ap (λ (t : Session). t.committed.bookings) left
          ∙ ap (λ (db : Db). db.bookings) (kept_committed after _ e other left_behind)
          ∙ cancel_booking-cancelled_in env old.id business_id tenant_id reason actor_id false s
              cancelled first
          ∙ ap (λ (i : ℕ). cancelled_in i reason s.db.bookings)
              (found_id s.db booking_id business_id tenant_id found),
    )

any_of-left :
    (p : Booking → Bool) (xs ys : List Booking) → any_of p xs ≡ true → any_of p (xs ++ ys) ≡ true
any_of-left p xs ys h = rw (any_of-append p xs ys, h) refl

lost_insert :
    (env : Env) (b : Booking) (s : Session)
    → any_of (λ (c : Booking). c.id == b.id) s.db.bookings ≡ false
    → any_of (excludes b) env.raced ≡ true
    → insert_booking env b s ≡ (err (integrity_error no_overlapping_staff_bookings), s)
unfolding insert_booking ◌>>=◌
lost_insert env b s fresh lost =
    rw (fresh, any_of-left (excludes b) env.raced s.db.bookings lost) refl

-- A creation that passes every check of its own, while another transaction commits a booking that
-- excludes the new one, raises the constraint's error as it is.
pub create_booking_race :
    (env : Env) (r : BookingRequest) (actor_id : Option ℕ) (s : Session) (business : Business)
    (customer : Customer) (svc : Service)
    → require_business s.db r.business_id r.tenant_id ≡ ok business
    → require_customer_in_business s.db r.customer_id r.business_id r.tenant_id ≡ ok customer
    → require_service_in_business s.db r.service_id r.business_id r.tenant_id ≡ ok svc
    → require_staff_if_given r.staff_id r.business_id r.tenant_id s.db ≡ ok tt
    → check_double_booking s.db r.staff_id r.business_id r.starts_at
        (r.starts_at + minutes svc.duration_minutes)
        none
      ≡ ok tt
    → any_of (λ (c : Booking). c.id == s.next_id) s.db.bookings ≡ false
    → any_of
        (excludes (
          new_booking env r BookingStatus.confirmed
            (r.starts_at + minutes svc.duration_minutes)
            s.next_id))
        env.raced
      ≡ true
    → (create_booking env r actor_id false none s).0
      ≡ err (integrity_error no_overlapping_staff_bookings)
unfolding create_booking write_booking ◌>>=◌
create_booking_race env r actor_id s business customer svc hb hc hs hm free fresh lost =
    rw
      (
        hb,
        hc,
        hs,
        hm,
        free,
        lost_insert env
            (new_booking env r BookingStatus.confirmed (r.starts_at + minutes svc.duration_minutes)
              s.next_id)
            (record s { next_id = s.next_id + 1 }) fresh lost,
      )
      refl

-- A payment hold in the same case raises a conflict, and the session is rolled back.
pub create_pending_payment_hold_race :
    (env : Env) (r : BookingRequest) (provider : String) (provider_session_id : Option String)
    (s : Session) (business : Business) (customer : Customer) (svc : Service) (amount : ℕ × String)
    → require_business s.db r.business_id r.tenant_id ≡ ok business
    → require_customer_in_business s.db r.customer_id r.business_id r.tenant_id ≡ ok customer
    → require_service_in_business s.db r.service_id r.business_id r.tenant_id ≡ ok svc
    → deposit_of svc ≡ ok amount
    → require_staff_if_given r.staff_id r.business_id r.tenant_id s.db ≡ ok tt
    → check_double_booking s.db r.staff_id r.business_id r.starts_at
        (r.starts_at + minutes svc.duration_minutes)
        none
      ≡ ok tt
    → any_of (λ (c : Booking). c.id == s.next_id) s.db.bookings ≡ false
    → any_of
        (excludes (
          new_booking env r BookingStatus.pending_payment
            (r.starts_at + minutes svc.duration_minutes)
            s.next_id))
        env.raced
      ≡ true
    → let (result, left) = create_pending_payment_hold env r provider provider_session_id s in
      (result ≡ err (conflict "This time slot is already booked for the selected staff"))
      × (left.db ≡ s.committed)
      × (left.committed ≡ s.committed)
unfolding create_pending_payment_hold write_hold ◌>>=◌ catch_overlap
create_pending_payment_hold_race env r provider provider_session_id s business customer svc amount
      hb hc hs hd hm free fresh lost =
    rw
      (
        hb,
        hc,
        hs,
        hd,
        hm,
        free,
        lost_insert env
            (new_booking env r BookingStatus.pending_payment
              (r.starts_at + minutes svc.duration_minutes) s.next_id)
            (record s { next_id = s.next_id + 1 }) fresh lost,
      )
      (refl, refl, refl)
