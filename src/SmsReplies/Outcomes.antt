-- ===== src/SmsReplies/Outcomes.antt =====
-- What a reply does to the bookings.
use appointment_voice_saas.Common.{
  ℕ, String, none, some, false, ◌≡◌, ◌≢◌, inl, inr, refl, ap, if◌then◌else◌, Bool-cases,
  Option-cases,
}
use appointment_voice_saas.Tables.{Db, Booking, Customer}
use appointment_voice_saas.Errors.{Result, ok, err}
use appointment_voice_saas.Session.{Session, pure, ◌>>=◌}
use appointment_voice_saas.Session.Atomic.{Left}
use appointment_voice_saas.Env.{Env}
use appointment_voice_saas.Audit.{create_audit_log}
use appointment_voice_saas.Customers.{get_customer_by_phone}
use appointment_voice_saas.Booking.Lists.{get_next_confirmed_booking}
use appointment_voice_saas.Booking.Cancel.{cancel_booking}
use appointment_voice_saas.Booking.Atomicity.{Atomic-cancel_booking}
use appointment_voice_saas.Booking.Outcome.Landing.{cancelled_in}
use appointment_voice_saas.Booking.Outcome.Moves.{cancel_booking-cancelled_in}
use appointment_voice_saas.SmsReplies.{
  SmsReplyIntent, confirm, cancel, unrecognized, parse_reply_intent, is_conflict, unless_conflict,
  handle_intent, sms_reply, cancel_unless_conflict, handle_sms_reply,
}

-- What a CANCEL leads to, by what the cancellation of the booking did.
abbrev pub Cancels : ℕ → Session → Result Booking → Result SmsReplyIntent × Session → Type 0
Cancels booking_id s (ok b) after =
    (after.0 ≡ ok cancel)
    × (after.1.committed.bookings ≡ cancelled_in booking_id sms_reply s.db.bookings)
Cancels booking_id s (err e) after =
    (after.0 ≡ (if is_conflict e then ok cancel else err e)) × Left e s after.1

Cancels-unless_conflict :
    (env : Env) (business_id tenant_id : ℕ) (b : Booking) (s : Session)
    → let (r, after) = cancel_booking env b.id business_id tenant_id sms_reply none false s in
      Cancels b.id s r ((unless_conflict r >>= λ _. pure cancel) after)
unfolding ◌>>=◌
Cancels-unless_conflict env business_id tenant_id b s =
    by_result (cancel_booking env b.id business_id tenant_id sms_reply none false s).0 refl
  where
    by_result :
        (r : Result Booking)
        → (cancel_booking env b.id business_id tenant_id sms_reply none false s).0 ≡ r
        → Cancels b.id s r (
            (unless_conflict r >>= λ _. pure cancel)
              (cancel_booking env b.id business_id tenant_id sms_reply none false s).1)
    by_result (ok c) returned = (
      refl,
      cancel_booking-cancelled_in env b.id business_id tenant_id sms_reply none false s c returned,
    )
    by_result (err e) raised =
        let same =
          (Atomic-cancel_booking env b.id business_id tenant_id sms_reply none false).on_error s e
            raised in
        elim (Bool-cases (is_conflict e)) [
          | inl caught ↦ rw caught (refl, same)
          | inr other ↦ rw other (refl, same)
        ]

-- A CANCEL from a known customer who has a booking ahead: that of their next booking, and of no
-- other. Where its cancellation returns, it and only it is cancelled, for this reason. Where it
-- raises, the reply raises the same error, but for a conflict, which it takes for done; and nothing
-- is committed or queued, unless the error is that of Redis, which has refused a push when all that
-- the cancellation has written had been committed.
pub handle_sms_reply-Cancels :
    (env : Env) (business_id tenant_id : ℕ) (from_phone body : String) (s : Session)
    (customer : Customer) (b : Booking)
    → parse_reply_intent body ≡ cancel
    → get_customer_by_phone env s.db business_id tenant_id from_phone ≡ some customer
    → get_next_confirmed_booking env s.db business_id tenant_id customer.id ≡ some b
    → Cancels b.id s
        (cancel_booking env b.id business_id tenant_id sms_reply none false s).0
        (handle_sms_reply env business_id tenant_id from_phone body s)
unfolding handle_sms_reply cancel_unless_conflict ◌>>=◌
handle_sms_reply-Cancels env business_id tenant_id from_phone body s customer b says known ahead =
    rw (says, known, ahead) (Cancels-unless_conflict env business_id tenant_id b s)

-- Any other reply, in a session without open changes, returns what it was taken for and leaves the
-- committed bookings as they are.
pub handle_sms_reply_keeps :
    (env : Env) (business_id tenant_id : ℕ) (from_phone body : String) (s : Session)
    → s.db ≡ s.committed
    → parse_reply_intent body ≢ cancel
    → let after = handle_sms_reply env business_id tenant_id from_phone body s in
      (after.0 ≡ ok (parse_reply_intent body)) × (after.1.committed.bookings ≡ s.committed.bookings)
unfolding handle_sms_reply create_audit_log ◌>>=◌
handle_sms_reply_keeps env business_id tenant_id from_phone body s clean other =
    by_intent (parse_reply_intent body) refl
  where
    Kept : SmsReplyIntent → Type 0
    Kept intent =
        let after = handle_intent env business_id tenant_id from_phone intent s in
        (after.0 ≡ ok intent) × (after.1.committed.bookings ≡ s.committed.bookings)

    confirmed : Kept confirm
    confirmed =
        elim (Option-cases (get_customer_by_phone env s.db business_id tenant_id from_phone)) [
          | inl nobody ↦ rw nobody (refl, refl)
          | inr (customer, known) ↦
              rw known
                (elim (Option-cases
                  (get_next_confirmed_booking env s.db business_id tenant_id customer.id)) [
                    | inl nothing ↦ rw nothing (refl, refl)
                    | inr (b, ahead) ↦ rw ahead (refl, ap (λ (db : Db). db.bookings) clean)
                  ])
        ]

    by_intent : (intent : SmsReplyIntent) → parse_reply_intent body ≡ intent → Kept intent
    by_intent confirm says = confirmed
    by_intent cancel says = absurd (other says)
    by_intent unrecognized says = (refl, refl)
