-- ===== src/Booking/Cancel.antt =====
-- app/services/booking_service.py: `cancel_booking`, `expire_pending_payment_hold` and
-- `expire_stale_payment_holds`.
use appointment_voice_saas.Common.{
  ℕ, ◌+◌, String, Option, none, some, List, [], ◌∷◌, Bool, true, false, not, ◌&&◌, ltb, filter_by,
  if◌then◌else◌,
}
use appointment_voice_saas.Tables.{
  Db, Booking, BookingStatus, Business, Service, WaitlistEntry, CalendarEvent, NotificationOutbox,
  AuditAction, is_pending_payment, minutes, date_of,
}
use appointment_voice_saas.Errors.{Result, ok, err, bad_request, conflict, require_that}
use appointment_voice_saas.Lookups.{
  require_business, require_customer_in_business, require_service_in_business,
}
use appointment_voice_saas.Session.{Action, pure, read, query, modify, commit, ◌>>=◌, ◌>>◌}
use appointment_voice_saas.Env.{Env, is_missing}
use appointment_voice_saas.Audit.{create_audit_log}
use appointment_voice_saas.Outbox.{
  enqueue_booking_cancellation, enqueue_waitlist_offer, enqueue_all,
}
use appointment_voice_saas.Calendar.{
  get_calendar_event_for_booking, enqueue_cancel_calendar_event_job,
}
use appointment_voice_saas.Waitlist.{find_matching_waitlist_entries, offer_entry}
use appointment_voice_saas.Booking.Reads.{require_booking_in_business, update_booking}
use appointment_voice_saas.Booking.Payment.{fail_linked_pending_payment}

abbrev pub is_cancelled : BookingStatus → Bool
is_cancelled BookingStatus.confirmed = false
is_cancelled BookingStatus.cancelled = true
is_cancelled BookingStatus.pending_payment = false

abbrev pub cancel_row : Option String → Booking → Booking
cancel_row reason b = record b { status = BookingStatus.cancelled; cancel_reason = reason }

-- The waiters that the slot of a booking would serve.
abbrev pub matching_entries : Env → Booking → ℕ → Db → List WaitlistEntry
matching_entries env booking tenant_id db =
    find_matching_waitlist_entries env db booking.business_id tenant_id booking.service_id
      (date_of booking.starts_at) booking.staff_id true

-- The offer of `cancel_booking`, to `matching_entries[0]`.
unfoldable pub offer_first :
    Env → Booking → ℕ → Business → Service → List WaitlistEntry → Action (List NotificationOutbox)
offer_first env booking tenant_id business service [] = pure []
offer_first env booking tenant_id business service (entry ∷ others) = do
  modify (offer_entry env entry.id booking.staff_id)
  customer ←
      read (λ db. require_customer_in_business db entry.customer_id entry.business_id tenant_id)
  intent ← enqueue_waitlist_offer env entry business customer service
  pure (intent ∷ [])

abbrev pub enqueue_calendar_cancel : Option CalendarEvent → Action (Unit {0})
enqueue_calendar_cancel none = pure tt
enqueue_calendar_cancel (some event) = enqueue_cancel_calendar_event_job event.id

abbrev pub cancelled_action : Bool → AuditAction
cancelled_action override =
    if override then AuditAction.booking_override_cancelled else AuditAction.booking_cancelled

-- From the first write on.
unfoldable pub write_cancellation :
    Env → ℕ → Option String → Option ℕ → Bool → Booking → Action Booking
write_cancellation env tenant_id reason actor_id override booking = do
  modify (update_booking booking.id (cancel_row reason))
  modify (fail_linked_pending_payment (cancel_row reason booking))
  create_audit_log env tenant_id actor_id (cancelled_action override) (some booking.id)
      (if override then reason else some booking.source) false
  business ← read (λ db. require_business db booking.business_id tenant_id)
  customer ←
      read (λ db. require_customer_in_business db booking.customer_id booking.business_id tenant_id)
  service ←
      read (λ db. require_service_in_business db booking.service_id booking.business_id tenant_id)
  intents ← enqueue_booking_cancellation env (cancel_row reason booking) business customer service
  entries ← query (matching_entries env booking tenant_id)
  offers ← offer_first env booking tenant_id business service entries
  cal_event ← query (λ db. get_calendar_event_for_booking db booking.id tenant_id)
  commit
  enqueue_all intents
  enqueue_all offers
  enqueue_calendar_cancel cal_event
  pure (cancel_row reason booking)

unfoldable pub cancel_booking : Env → ℕ → ℕ → ℕ → Option String → Option ℕ → Bool → Action Booking
cancel_booking env booking_id business_id tenant_id reason actor_id override = do
  read (λ _.
      require_that (not (override && is_missing reason))
        (bad_request "reason is required for an admin override cancellation"))
  booking ← read (λ db. require_booking_in_business db booking_id business_id tenant_id)
  read (λ _.
      require_that (not (is_cancelled booking.status)) (conflict "Booking is already cancelled"))
  write_cancellation env tenant_id reason actor_id override booking

-- The offer of `expire_pending_payment_hold`, which looks the business and the service up first.
unfoldable pub offer_expired :
    Env → Booking → ℕ → List WaitlistEntry → Action (List NotificationOutbox)
offer_expired env booking tenant_id [] = pure []
offer_expired env booking tenant_id (entry ∷ others) = do
  modify (offer_entry env entry.id booking.staff_id)
  business ← read (λ db. require_business db booking.business_id tenant_id)
  service ←
      read (λ db. require_service_in_business db booking.service_id booking.business_id tenant_id)
  customer ←
      read (λ db. require_customer_in_business db entry.customer_id entry.business_id tenant_id)
  intent ← enqueue_waitlist_offer env entry business customer service
  pure (intent ∷ [])

abbrev pub hold_expired : Option String
hold_expired = some "payment_hold_expired"

unfoldable pub expire_pending_payment_hold : Env → ℕ → ℕ → ℕ → Action Booking
expire_pending_payment_hold env booking_id business_id tenant_id = do
  booking ← read (λ db. require_booking_in_business db booking_id business_id tenant_id)
  read (λ _.
      require_that (is_pending_payment booking.status)
        (conflict "Booking is not a pending payment hold"))
  modify (update_booking booking.id (cancel_row hold_expired))
  modify (fail_linked_pending_payment (cancel_row hold_expired booking))
  create_audit_log env tenant_id none AuditAction.booking_hold_expired (some booking.id)
      hold_expired false
  entries ← query (matching_entries env booking tenant_id)
  offers ← offer_expired env booking tenant_id entries
  commit
  enqueue_all offers
  pure (cancel_row hold_expired booking)

-- try: ...; count += 1; except ConflictError: db.rollback()
unfoldable pub handle_conflict : Result Booking → Action Bool
handle_conflict (ok booking) s = (ok true, s)
handle_conflict (err (conflict message)) s = (ok false, record s { db = s.committed })
handle_conflict (err e) s = (err e, s)

unfoldable pub try_expire : Env → Booking → Action Bool
try_expire env b s =
    let (r, s') = expire_pending_payment_hold env b.id b.business_id b.tenant_id s in
    handle_conflict r s'

-- The loop over the candidates, with the number expired so far.
unfoldable pub expire_each : Env → List Booking → ℕ → Action ℕ
expire_each env [] expired_count = pure expired_count
expire_each env (b ∷ rest) expired_count = do
  expired ← try_expire env b
  expire_each env rest (if expired then expired_count + 1 else expired_count)

unfoldable pub expire_stale_payment_holds : Env → Action ℕ
expire_stale_payment_holds env = do
  stale ← query (λ db.
      filter_by
        (λ (b : Booking).
          is_pending_payment b.status
          && ltb (b.created_at + minutes env.booking_payment_hold_minutes) env.now)
        db.bookings)
  expire_each env stale 0
