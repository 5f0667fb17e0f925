-- ===== src/Booking/Outcome/Frames.antt =====
-- The statements of the calls that leave the bookings alone, and those that only queue jobs.
use appointment_voice_saas.Common.{
  ℕ, String, Option, none, some, List, [], ◌∷◌, false, ◌≡◌, refl, find_by,
}
use appointment_voice_saas.Tables.{
  Db, Booking, Business, Customer, Service, WaitlistEntry, CalendarEvent, NotificationOutbox,
  NotificationPurpose, AuditAction, AuditLog, BookingPayment,
}
use appointment_voice_saas.Session.{modify}
use appointment_voice_saas.Session.Frames.{
  Frames, Frames-modify, frame_rules, Outside, Outside-pure, Outside-bind, Outside-enqueue_job,
}
use appointment_voice_saas.Env.{Env}
use appointment_voice_saas.Audit.{create_audit_log, add_audit_log}
use appointment_voice_saas.Outbox.{
  insert_intent, add_intent, owner_intent, enqueue_booking_confirmation,
  enqueue_booking_cancellation, enqueue_waitlist_offer, enqueue_all, enqueue_send_notification_job,
}
use appointment_voice_saas.Calendar.{
  enqueue_calendar_event, add_event, enqueue_sync_calendar_event_job,
  enqueue_cancel_calendar_event_job,
}
use appointment_voice_saas.Waitlist.{offer_entry}
use appointment_voice_saas.Booking.Payment.{fail_linked_pending_payment, fail_found, is_pending_of}
use appointment_voice_saas.Booking.Cancel.{offer_first, offer_expired, enqueue_calendar_cancel}

Frames-add_audit_log : (row : AuditLog) → Frames (modify (add_audit_log row))
Frames-add_audit_log row = Frames-modify _ λ db. refl

Frames-add_intent : (row : NotificationOutbox) → Frames (modify (add_intent row))
Frames-add_intent row = Frames-modify _ λ db. refl

Frames-add_event : (row : CalendarEvent) → Frames (modify (add_event row))
Frames-add_event row = Frames-modify _ λ db. refl

Frames-offer_entry :
    (env : Env) (i : ℕ) (staff : Option ℕ) → Frames (modify (offer_entry env i staff))
Frames-offer_entry env i staff = Frames-modify _ λ db. refl

bookings-fail_found :
    (b : Booking) (o : Option BookingPayment) (db : Db) → (fail_found b o db).bookings ≡ db.bookings
bookings-fail_found b none db = refl
bookings-fail_found b (some p) db = refl

pub Frames-fail : (b : Booking) → Frames (modify (fail_linked_pending_payment b))
unfolding fail_linked_pending_payment
Frames-fail b =
    Frames-modify _ λ db. bookings-fail_found b (find_by (is_pending_of b) db.payments) db

pub Frames-create_audit_log :
    (env : Env) (t : ℕ) (a : Option ℕ) (act : AuditAction) (b : Option ℕ) (source : Option String)
    → Frames (create_audit_log env t a act b source false)
unfolding create_audit_log
Frames-create_audit_log env t a act b source = search (frame_rules, Frames-add_audit_log) depth 12

Frames-insert_intent :
    (env : Env) (t b : ℕ) (i : Option ℕ) (p : NotificationPurpose) (phone body : String)
    → Frames (insert_intent env t b i p phone body)
unfolding insert_intent
Frames-insert_intent env t b i p phone body = search (frame_rules, Frames-add_intent) depth 12

Frames-owner_intent :
    (env : Env) (b : Booking) (p : NotificationPurpose) (phone : Option String) (body : String)
    → Frames (owner_intent env b p phone body)
Frames-owner_intent env b p none body = search frame_rules
Frames-owner_intent env b p (some String.[]) body = search frame_rules
Frames-owner_intent env b p (some (String.◌∷◌ c rest)) body =
    search (frame_rules, Frames-insert_intent)

pub Frames-enqueue_booking_confirmation :
    (env : Env) (b : Booking) (bus : Business) (c : Customer) (svc : Service)
    → Frames (enqueue_booking_confirmation env b bus c svc)
unfolding enqueue_booking_confirmation
Frames-enqueue_booking_confirmation env b bus c svc =
    search (frame_rules, Frames-insert_intent, Frames-owner_intent) depth 12

pub Frames-enqueue_booking_cancellation :
    (env : Env) (b : Booking) (bus : Business) (c : Customer) (svc : Service)
    → Frames (enqueue_booking_cancellation env b bus c svc)
unfolding enqueue_booking_cancellation
Frames-enqueue_booking_cancellation env b bus c svc =
    search (frame_rules, Frames-insert_intent, Frames-owner_intent) depth 12

Frames-enqueue_waitlist_offer :
    (env : Env) (e : WaitlistEntry) (bus : Business) (c : Customer) (svc : Service)
    → Frames (enqueue_waitlist_offer env e bus c svc)
unfolding enqueue_waitlist_offer
Frames-enqueue_waitlist_offer env e bus c svc = search Frames-insert_intent

pub Frames-enqueue_calendar_event :
    (env : Env) (b : Booking) (bus : Business) → Frames (enqueue_calendar_event env b bus)
unfolding enqueue_calendar_event
Frames-enqueue_calendar_event env b bus = search (frame_rules, Frames-add_event) depth 14

pub Frames-offer_first :
    (env : Env) (b : Booking) (t : ℕ) (bus : Business) (svc : Service) (es : List WaitlistEntry)
    → Frames (offer_first env b t bus svc es)
unfolding offer_first
Frames-offer_first env b t bus svc [] = search frame_rules
Frames-offer_first env b t bus svc (e ∷ es) =
    search (frame_rules, Frames-offer_entry, Frames-enqueue_waitlist_offer) depth 12

pub Frames-offer_expired :
    (env : Env) (b : Booking) (t : ℕ) (es : List WaitlistEntry) → Frames (offer_expired env b t es)
unfolding offer_expired
Frames-offer_expired env b t [] = search frame_rules
Frames-offer_expired env b t (e ∷ es) =
    search (frame_rules, Frames-offer_entry, Frames-enqueue_waitlist_offer) depth 14

pub Outside-enqueue_all : (intents : List NotificationOutbox) → Outside (enqueue_all intents)
unfolding enqueue_all enqueue_send_notification_job
Outside-enqueue_all [] = Outside-pure tt
Outside-enqueue_all (i ∷ rest) =
    Outside-bind _ _ (Outside-enqueue_job _) λ _. Outside-enqueue_all rest

pub Outside-enqueue_sync : (i : ℕ) → Outside (enqueue_sync_calendar_event_job i)
unfolding enqueue_sync_calendar_event_job
Outside-enqueue_sync i = Outside-enqueue_job _

pub Outside-enqueue_calendar_cancel :
    (event : Option CalendarEvent) → Outside (enqueue_calendar_cancel event)
unfolding enqueue_cancel_calendar_event_job
Outside-enqueue_calendar_cancel none = Outside-pure tt
Outside-enqueue_calendar_cancel (some event) = Outside-enqueue_job _
