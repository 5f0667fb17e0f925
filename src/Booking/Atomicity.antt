-- ===== src/Booking/Atomicity.antt =====
-- The transactions of app/services/booking_service.py: what a call that raises leaves behind.
use appointment_voice_saas.Common.{
  ℕ, String, Option, none, some, List, [], ◌∷◌, Bool, true, false, ◌≡◌, if◌then◌else◌,
}
use appointment_voice_saas.Tables.{
  Booking, BookingStatus, Business, Customer, Service, WaitlistEntry, CalendarEvent,
  NotificationOutbox, AuditAction, NotificationPurpose,
}
use appointment_voice_saas.Errors.{Error, err}
use appointment_voice_saas.Session.{Session, pure, raise}
use appointment_voice_saas.Session.Atomic.{
  Left, Quiet, Pushes, Atomic, Atomic-bind, Atomic-Quiet, Atomic-commit, Atomic-drop,
  Atomic-catch_overlap, Atomic-bind-Pushes, quiet_rules, push_rules, close_rules,
}
use appointment_voice_saas.Env.{Env}
use appointment_voice_saas.Audit.{create_audit_log}
use appointment_voice_saas.Outbox.{
  insert_intent, owner_intent, enqueue_booking_confirmation, enqueue_booking_cancellation,
  enqueue_waitlist_offer, enqueue_all,
}
use appointment_voice_saas.Calendar.{
  enqueue_calendar_event, enqueue_sync_calendar_event_job, enqueue_cancel_calendar_event_job,
}
use appointment_voice_saas.Booking.Overlap.{insert_booking}
use appointment_voice_saas.Booking.Create.{
  BookingRequest, write_booking, create_booking, write_hold, create_pending_payment_hold,
}
use appointment_voice_saas.Booking.Payment.{
  confirm_hold, confirm_by_status, confirm_booking_payment, refund_booking_payment,
}
use appointment_voice_saas.Booking.Calls.{
  Call, create, hold, confirm, refund, cancel, expire, reschedule, sweep, perform, is_single,
}
use appointment_voice_saas.Booking.Cancel.{
  offer_first, offer_expired, write_cancellation, cancel_booking, expire_pending_payment_hold,
  enqueue_calendar_cancel,
}

Quiet-create_audit_log :
    (env : Env) (t : ℕ) (a : Option ℕ) (act : AuditAction) (b : Option ℕ) (source : Option String)
    → Quiet (create_audit_log env t a act b source false)
unfolding create_audit_log
Quiet-create_audit_log env t a act b source = search quiet_rules depth 12

Quiet-insert_intent :
    (env : Env) (t b : ℕ) (i : Option ℕ) (p : NotificationPurpose) (phone body : String)
    → Quiet (insert_intent env t b i p phone body)
unfolding insert_intent
Quiet-insert_intent env t b i p phone body = search quiet_rules depth 12

Quiet-owner_intent :
    (env : Env) (b : Booking) (p : NotificationPurpose) (phone : Option String) (body : String)
    → Quiet (owner_intent env b p phone body)
Quiet-owner_intent env b p none body = search quiet_rules
Quiet-owner_intent env b p (some String.[]) body = search quiet_rules
Quiet-owner_intent env b p (some (String.◌∷◌ c rest)) body =
    search (quiet_rules, Quiet-insert_intent)

ruleset outbox_rules =
    (quiet_rules, Quiet-insert_intent, Quiet-owner_intent, Quiet-create_audit_log)

Quiet-enqueue_booking_confirmation :
    (env : Env) (b : Booking) (biz : Business) (c : Customer) (s : Service)
    → Quiet (enqueue_booking_confirmation env b biz c s)
unfolding enqueue_booking_confirmation
Quiet-enqueue_booking_confirmation env b biz c s = search outbox_rules depth 8

Quiet-enqueue_booking_cancellation :
    (env : Env) (b : Booking) (biz : Business) (c : Customer) (s : Service)
    → Quiet (enqueue_booking_cancellation env b biz c s)
unfolding enqueue_booking_cancellation
Quiet-enqueue_booking_cancellation env b biz c s = search outbox_rules depth 8

Quiet-enqueue_waitlist_offer :
    (env : Env) (e : WaitlistEntry) (biz : Business) (c : Customer) (s : Service)
    → Quiet (enqueue_waitlist_offer env e biz c s)
unfolding enqueue_waitlist_offer
Quiet-enqueue_waitlist_offer env e biz c s = search outbox_rules

Quiet-enqueue_calendar_event :
    (env : Env) (b : Booking) (biz : Business) → Quiet (enqueue_calendar_event env b biz)
unfolding enqueue_calendar_event
Quiet-enqueue_calendar_event env b biz = search quiet_rules depth 12

Quiet-insert_booking : (env : Env) (b : Booking) → Quiet (insert_booking env b)
unfolding insert_booking
Quiet-insert_booking env b = search quiet_rules

pub Pushes-enqueue_all : (intents : List NotificationOutbox) → Pushes (enqueue_all intents)
unfolding enqueue_all
Pushes-enqueue_all [] = search push_rules
Pushes-enqueue_all (i ∷ rest) = let later = Pushes-enqueue_all rest in search push_rules

Pushes-sync : (event_id : ℕ) → Pushes (enqueue_sync_calendar_event_job event_id)
unfolding enqueue_sync_calendar_event_job
Pushes-sync event_id = search push_rules

Pushes-calendar_cancel : (event : Option CalendarEvent) → Pushes (enqueue_calendar_cancel event)
unfolding enqueue_cancel_calendar_event_job
Pushes-calendar_cancel none = search push_rules
Pushes-calendar_cancel (some event) = search push_rules

ruleset after_commit = (push_rules, Pushes-enqueue_all, Pushes-sync, Pushes-calendar_cancel)

ruleset before_commit = (
  outbox_rules, Quiet-enqueue_booking_confirmation, Quiet-enqueue_booking_cancellation,
  Quiet-enqueue_waitlist_offer, Quiet-enqueue_calendar_event, Quiet-insert_booking,
)

ruleset atomic_rules = (
  before_commit, after_commit, close_rules, Atomic-bind, Atomic-bind-Pushes, Atomic-catch_overlap,
  Atomic-commit,
)

Atomic-write_booking :
    (env : Env) (r : BookingRequest) (actor : Option ℕ) (override : Bool) (reason : Option String)
    (biz : Business) (c : Customer) (s : Service)
    → Atomic (write_booking env r actor override reason biz c s)
unfolding write_booking
Atomic-write_booking env r actor override reason biz c s = search atomic_rules depth 14

pub Atomic-create_booking :
    (env : Env) (r : BookingRequest) (actor : Option ℕ) (override : Bool) (reason : Option String)
    → Atomic (create_booking env r actor override reason)
unfolding create_booking
Atomic-create_booking env r actor override reason =
    search (atomic_rules, Atomic-write_booking) depth 14

Atomic-write_hold :
    (env : Env) (r : BookingRequest) (p : String) (q : Option String) (s : Service) (a : ℕ)
    (c : String)
    → Atomic (write_hold env r p q s a c)
unfolding write_hold
Atomic-write_hold env r p q s a c = search atomic_rules depth 14

Atomic-create_pending_payment_hold :
    (env : Env) (r : BookingRequest) (p : String) (q : Option String)
    → Atomic (create_pending_payment_hold env r p q)
unfolding create_pending_payment_hold
Atomic-create_pending_payment_hold env r p q = search (atomic_rules, Atomic-write_hold) depth 14

Atomic-confirm_hold :
    (env : Env) (t : ℕ) (p : Option String) (source : String) (b : Booking)
    → Atomic (confirm_hold env t p source b)
unfolding confirm_hold
Atomic-confirm_hold env t p source b = search atomic_rules depth 20

Atomic-if : (paid : Bool) (b : Booking) (e : Error) → Atomic (if paid then pure b else raise e)
Atomic-if true b e = search (atomic_rules, Atomic-Quiet)
Atomic-if false b e = search (atomic_rules, Atomic-Quiet)

Atomic-confirm_by_status :
    (status : BookingStatus) (env : Env) (t : ℕ) (p : Option String) (source : String) (b : Booking)
    → Atomic (confirm_by_status status env t p source b)
unfolding confirm_by_status
Atomic-confirm_by_status BookingStatus.confirmed env t p source b = search (atomic_rules, Atomic-if)
Atomic-confirm_by_status BookingStatus.cancelled env t p source b =
    search (atomic_rules, Atomic-Quiet)
Atomic-confirm_by_status BookingStatus.pending_payment env t p source b =
    Atomic-confirm_hold env t p source b

Atomic-confirm_booking_payment :
    (env : Env) (i b t : ℕ) (p : Option String) (source : String)
    → Atomic (confirm_booking_payment env i b t p source)
unfolding confirm_booking_payment
Atomic-confirm_booking_payment env i b t p source = search (atomic_rules, Atomic-confirm_by_status)

Atomic-refund_booking_payment :
    (env : Env) (i b t : ℕ) (a : Option ℕ) (reason : Option String)
    → Atomic (refund_booking_payment env i b t a reason)
unfolding refund_booking_payment
Atomic-refund_booking_payment env i b t a reason = search atomic_rules depth 14

Quiet-offer_first :
    (env : Env) (b : Booking) (t : ℕ) (biz : Business) (s : Service) (es : List WaitlistEntry)
    → Quiet (offer_first env b t biz s es)
unfolding offer_first
Quiet-offer_first env b t biz s [] = search before_commit
Quiet-offer_first env b t biz s (e ∷ es) = search before_commit depth 10

Quiet-offer_expired :
    (env : Env) (b : Booking) (t : ℕ) (es : List WaitlistEntry) → Quiet (offer_expired env b t es)
unfolding offer_expired
Quiet-offer_expired env b t [] = search before_commit
Quiet-offer_expired env b t (e ∷ es) = search before_commit depth 10

Atomic-write_cancellation :
    (env : Env) (t : ℕ) (reason : Option String) (a : Option ℕ) (override : Bool) (b : Booking)
    → Atomic (write_cancellation env t reason a override b)
unfolding write_cancellation
Atomic-write_cancellation env t reason a override b =
    search (atomic_rules, Quiet-offer_first) depth 24

pub Atomic-cancel_booking :
    (env : Env) (i b t : ℕ) (reason : Option String) (a : Option ℕ) (override : Bool)
    → Atomic (cancel_booking env i b t reason a override)
unfolding cancel_booking
Atomic-cancel_booking env i b t reason a override =
    search (atomic_rules, Atomic-write_cancellation) depth 8

Atomic-expire_pending_payment_hold :
    (env : Env) (i b t : ℕ) → Atomic (expire_pending_payment_hold env i b t)
unfolding expire_pending_payment_hold
Atomic-expire_pending_payment_hold env i b t = search (atomic_rules, Quiet-offer_expired) depth 20

Atomic-perform : (env : Env) (call : Call) → is_single call ≡ true → Atomic (perform env call)
unfolding perform
Atomic-perform env (create r actor override reason) h = search (Atomic-drop, Atomic-create_booking)
Atomic-perform env (hold r p q) h = search (Atomic-drop, Atomic-create_pending_payment_hold)
Atomic-perform env (confirm i b t p source) h = search (Atomic-drop, Atomic-confirm_booking_payment)
Atomic-perform env (refund i b t a reason) h = search (Atomic-drop, Atomic-refund_booking_payment)
Atomic-perform env (cancel i b t reason a override) h = search (Atomic-drop, Atomic-cancel_booking)
Atomic-perform env (expire i b t) h = search (Atomic-drop, Atomic-expire_pending_payment_hold)
Atomic-perform env (reschedule l i b t at reason a source) h = cc
Atomic-perform env sweep h = cc

-- A call that runs in one transaction and raises (the creation of a booking or of a payment hold,
-- its confirmation, refund, cancellation and expiry) has committed nothing and queued no job; or it
-- raises the error of Redis, which has refused a push when all that the call has written had been
-- committed.
pub perform-Atomic :
    (env : Env) (call : Call) (s : Session) (e : Error)
    → is_single call ≡ true
    → (perform env call s).0 ≡ err e
    → Left e s (perform env call s).1
perform-Atomic env call s e single raised = (Atomic-perform env call single).on_error s e raised
