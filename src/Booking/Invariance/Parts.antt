-- ===== src/Booking/Invariance/Parts.antt =====
-- Invariants of the table of bookings: what the calls of the booking services write to it, and the
-- parts of the calls that keep such an invariant.
use appointment_voice_saas.Common.{
  ℕ, String, Option, none, some, List, [], ◌∷◌, ◌++◌, Bool, true, false, ◌≡◌, if◌then◌else◌, any_of,
  find_by, update_where, arith, ◌==◌,
}
use appointment_voice_saas.Tables.{
  Db, Booking, VoiceSession, BookingStatus, Business, Customer, Service, WaitlistEntry,
  CalendarEvent, NotificationOutbox, AuditAction, NotificationPurpose, BookingPayment,
}
use appointment_voice_saas.Errors.{Error, ok, err}
use appointment_voice_saas.Session.{modify}
use appointment_voice_saas.Session.Keeps.{
  Keeps, keeps_rules, Keeps-modify, Keeps-read-bind, KeepsAt, KeepsAt-all, KeepsAt-Keeps,
  KeepsAt-read, KeepsAt-modify, KeepsAt-modify_last, Keeps-bind, Keeps-pure, Keeps-raise,
  Keeps-query,
}
use appointment_voice_saas.Env.{Env}
use appointment_voice_saas.Audit.{create_audit_log}
use appointment_voice_saas.Outbox.{
  insert_intent, owner_intent, enqueue_booking_confirmation, enqueue_booking_cancellation,
  enqueue_waitlist_offer, enqueue_all,
}
use appointment_voice_saas.Calendar.{
  enqueue_calendar_event, enqueue_sync_calendar_event_job, enqueue_cancel_calendar_event_job,
}
use appointment_voice_saas.Booking.Overlap.{
  insert_booking, excludes, exclusion_check, primary_key_check,
}
use appointment_voice_saas.Booking.Reads.{update_booking, require_booking_in_business, is_booking}
use appointment_voice_saas.Booking.Payment.{
  confirm_row, fail_linked_pending_payment, fail_found, is_pending_of,
}
use appointment_voice_saas.Booking.Cancel.{enqueue_calendar_cancel, cancel_row}

ok_if : (t : Bool) (e : Error) {u : Unit {0}} → (if t then err e else ok tt) ≡ ok u → t ≡ false
ok_if t e h = ground arith

pub found_row :
    (db : Db) (i business_id t : ℕ) {b : Booking}
    → require_booking_in_business db i business_id t ≡ ok b
    → find_by (is_booking i t) db.bookings ≡ some b
unfolding require_booking_in_business
found_row db i business_id t h = ground arith

-- A property of the table of bookings that survives each kind of write: a new row that has passed
-- the constraints, a cancellation, and the confirmation of a hold that was just read.
pub record Stable (env : Env) (Q : List Booking → Type 0) : Type 0 where
  pub inserted :
      (b : Booking) (bs : List Booking)
      → any_of (excludes b) (env.raced ++ bs) ≡ false
      → any_of (λ (c : Booking). c.id == b.id) bs ≡ false
      → Q bs
      → Q (b ∷ bs)
  pub cancelled :
      (i : ℕ) (reason : Option String) (bs : List Booking)
      → Q bs
      → Q (update_where (λ (b : Booking). b.id == i) (cancel_row reason) bs)
  pub confirmed :
      (i t : ℕ) (b : Booking) (bs : List Booking)
      → find_by (is_booking i t) bs ≡ some b
      → b.status ≡ BookingStatus.pending_payment
      → Q bs
      → Q (update_where (λ (c : Booking). c.id == b.id) confirm_row bs)

-- The same of a property that reads the calls beside the bookings.
pub record StableBeside (env : Env) (Q : List VoiceSession → List Booking → Type 0) : Type 0 where
  pub beside : (calls : List VoiceSession) → Stable env (Q calls)

-- A property of the calls and the bookings of a database.
abbrev pub OfBookings : (List VoiceSession → List Booking → Type 0) → Db → Type 0
OfBookings Q db = Q db.voice_sessions db.bookings

module _ {env : Env} {Q : List VoiceSession → List Booking → Type 0}
    (stable : StableBeside env Q) where
  abbrev P : Db → Type 0
  P = OfBookings Q

  pub Keeps-insert_booking : (b : Booking) → Keeps P (insert_booking env b)
  unfolding insert_booking
  Keeps-insert_booking b = KeepsAt-all _ λ s. KeepsAt-read s (primary_key_check b) _ λ _ fresh.
      KeepsAt-read s (exclusion_check env.raced b) _ λ _ apart. KeepsAt-modify_last s _ (
        (stable.beside s.db.voice_sessions).inserted b s.db.bookings (ok_if _ _ apart)
          (ok_if _ _ fresh))

  pub Keeps-cancel_row :
      (i : ℕ) (reason : Option String) → Keeps P (modify (update_booking i (cancel_row reason)))
  Keeps-cancel_row i reason =
      Keeps-modify _ λ db. (stable.beside db.voice_sessions).cancelled i reason db.bookings

  P-fail_found : (b : Booking) (o : Option BookingPayment) (db : Db) → P db → P (fail_found b o db)
  P-fail_found b none db h = h
  P-fail_found b (some p) db h = h

  pub Keeps-fail : (b : Booking) → Keeps P (modify (fail_linked_pending_payment b))
  unfolding fail_linked_pending_payment
  Keeps-fail b = Keeps-modify _ λ db. P-fail_found b (find_by (is_pending_of b) db.payments) db

  pub Keeps-create_audit_log :
      (t : ℕ) (a : Option ℕ) (act : AuditAction) (b : Option ℕ) (source : Option String) (c : Bool)
      → Keeps P (create_audit_log env t a act b source c)
  unfolding create_audit_log
  Keeps-create_audit_log t a act b source true = search (keeps_rules, Keeps-modify) depth 12
  Keeps-create_audit_log t a act b source false = search (keeps_rules, Keeps-modify) depth 12

  pub Keeps-insert_intent :
      (t b : ℕ) (i : Option ℕ) (p : NotificationPurpose) (phone body : String)
      → Keeps P (insert_intent env t b i p phone body)
  unfolding insert_intent
  Keeps-insert_intent t b i p phone body = search (keeps_rules, Keeps-modify) depth 12

  pub Keeps-owner_intent :
      (b : Booking) (p : NotificationPurpose) (phone : Option String) (body : String)
      → Keeps P (owner_intent env b p phone body)
  Keeps-owner_intent b p none body = search keeps_rules
  Keeps-owner_intent b p (some String.[]) body = search keeps_rules
  Keeps-owner_intent b p (some (String.◌∷◌ c rest)) body = search (keeps_rules, Keeps-insert_intent)

  pub Keeps-enqueue_booking_confirmation :
      (b : Booking) (biz : Business) (c : Customer) (s : Service)
      → Keeps P (enqueue_booking_confirmation env b biz c s)
  unfolding enqueue_booking_confirmation
  Keeps-enqueue_booking_confirmation b biz c s =
      search (keeps_rules, Keeps-insert_intent, Keeps-owner_intent) depth 8

  pub Keeps-enqueue_booking_cancellation :
      (b : Booking) (biz : Business) (c : Customer) (s : Service)
      → Keeps P (enqueue_booking_cancellation env b biz c s)
  unfolding enqueue_booking_cancellation
  Keeps-enqueue_booking_cancellation b biz c s =
      search (keeps_rules, Keeps-insert_intent, Keeps-owner_intent) depth 8

  pub Keeps-enqueue_waitlist_offer :
      (e : WaitlistEntry) (biz : Business) (c : Customer) (s : Service)
      → Keeps P (enqueue_waitlist_offer env e biz c s)
  unfolding enqueue_waitlist_offer
  Keeps-enqueue_waitlist_offer e biz c s = search (keeps_rules, Keeps-insert_intent)

  pub Keeps-enqueue_calendar_event :
      (b : Booking) (biz : Business) → Keeps P (enqueue_calendar_event env b biz)
  unfolding enqueue_calendar_event
  Keeps-enqueue_calendar_event b biz = search (keeps_rules, Keeps-modify) depth 12

  pub Keeps-enqueue_all : (intents : List NotificationOutbox) → Keeps P (enqueue_all intents)
  unfolding enqueue_all
  Keeps-enqueue_all [] = search keeps_rules
  Keeps-enqueue_all (i ∷ rest) = let later = Keeps-enqueue_all rest in search keeps_rules

  pub Keeps-sync : (event_id : ℕ) → Keeps P (enqueue_sync_calendar_event_job event_id)
  unfolding enqueue_sync_calendar_event_job
  Keeps-sync event_id = search keeps_rules

  pub Keeps-calendar_cancel :
      (event : Option CalendarEvent) → Keeps P (enqueue_calendar_cancel event)
  unfolding enqueue_cancel_calendar_event_job
  Keeps-calendar_cancel none = search keeps_rules
  Keeps-calendar_cancel (some event) = search keeps_rules

  pub ruleset parts = (
    keeps_rules, Keeps-insert_booking, Keeps-cancel_row, Keeps-fail, Keeps-create_audit_log,
    Keeps-enqueue_booking_confirmation, Keeps-enqueue_booking_cancellation,
    Keeps-enqueue_waitlist_offer, Keeps-enqueue_calendar_event, Keeps-enqueue_all, Keeps-sync,
    Keeps-calendar_cancel, Keeps-modify,
  )
