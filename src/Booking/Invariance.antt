-- ===== src/Booking/Invariance.antt =====
-- Invariants of the table of bookings, through the calls of the booking services.
pub mod Parts
use appointment_voice_saas.Common.{
  ℕ, String, Option, none, some, List, [], ◌∷◌, ◌++◌, Bool, true, false, ◌≡◌, refl, if◌then◌else◌,
  any_of, find_by, update_where, arith, ◌==◌, All, ap, sym,
}
use appointment_voice_saas.Tables.{
  Db, Booking, VoiceSession, BookingStatus, Business, Customer, Service, WaitlistEntry,
  CalendarEvent, NotificationOutbox, AuditAction, NotificationPurpose, BookingPayment, is_active,
}
use appointment_voice_saas.Errors.{
  Error, Result, ok, err, conflict, integrity_error, no_overlapping_staff_bookings, bookings_pkey,
  require_that,
}
use appointment_voice_saas.Session.{
  Session, Action, pure, raise, read, query, modify, commit, ◌>>=◌, ◌>>◌,
}
use appointment_voice_saas.Session.Keeps.{
  Keeps, keeps_rules, Keeps-modify, Keeps-read-bind, KeepsAt, KeepsAt-all, KeepsAt-Keeps,
  KeepsAt-read, KeepsAt-modify, KeepsAt-modify_last, Keeps-bind, Keeps-pure, Keeps-raise,
  Keeps-query,
}
use appointment_voice_saas.Env.{Env}
use appointment_voice_saas.Audit.{create_audit_log}
use appointment_voice_saas.Outbox.{
  insert_intent, owner_intent, enqueue_booking_confirmation, enqueue_booking_cancellation,
  enqueue_waitlist_offer, enqueue_all, enqueue_send_notification_job,
}
use appointment_voice_saas.Calendar.{
  enqueue_calendar_event, enqueue_sync_calendar_event_job, enqueue_cancel_calendar_event_job,
}
use appointment_voice_saas.Booking.Overlap.{
  insert_booking, excludes, exclusion_check, primary_key_check,
}
use appointment_voice_saas.Booking.Overlap.Exclusion.{
  NoOverlap, UniqueIds, NoOverlap-insert, NoOverlap-update, UniqueIds-update, Frees, Weakens,
  unique_row,
}
use appointment_voice_saas.Booking.Reads.{
  update_booking, require_booking_in_business, get_booking, require_booking, is_booking,
}
use appointment_voice_saas.Booking.Create.{
  BookingRequest, write_booking, create_booking, write_hold, create_pending_payment_hold,
}
use appointment_voice_saas.Booking.Payment.{
  confirm_hold, confirm_by_status, confirm_booking_payment, refund_booking_payment, confirm_row,
  fail_linked_pending_payment, fail_found, is_pending_of,
}
use appointment_voice_saas.Booking.Cancel.{
  offer_first, offer_expired, write_cancellation, cancel_booking, expire_pending_payment_hold,
  enqueue_calendar_cancel, cancel_row, try_expire, expire_each, expire_stale_payment_holds,
  handle_conflict,
}
use appointment_voice_saas.Booking.Reschedule.{reschedule_booking}
use appointment_voice_saas.Booking.Calls.{
  Call, create, hold, confirm, refund, cancel, expire, reschedule, sweep, perform,
}
use Parts.{
  Stable, StableBeside, OfBookings, found_row, Keeps-insert_booking, Keeps-cancel_row, Keeps-fail,
  Keeps-create_audit_log, Keeps-enqueue_booking_confirmation, Keeps-enqueue_booking_cancellation,
  Keeps-enqueue_waitlist_offer, Keeps-enqueue_calendar_event, Keeps-enqueue_all, Keeps-sync,
  Keeps-calendar_cancel, parts,
}
pub use Parts.{Stable, StableBeside, OfBookings}

module _ {env : Env} {Q : List VoiceSession → List Booking → Type 0}
    (stable : StableBeside env Q) where
  abbrev P : Db → Type 0
  P = OfBookings Q

  Keeps-write_booking :
      (r : BookingRequest) (actor : Option ℕ) (override : Bool) (reason : Option String)
      (biz : Business) (c : Customer) (s : Service)
      → Keeps P (write_booking env r actor override reason biz c s)
  unfolding write_booking
  Keeps-write_booking r actor override reason biz c s = search parts depth 14

  pub Keeps-create_booking :
      (r : BookingRequest) (actor : Option ℕ) (override : Bool) (reason : Option String)
      → Keeps P (create_booking env r actor override reason)
  unfolding create_booking
  Keeps-create_booking r actor override reason = search (parts, Keeps-write_booking) depth 14

  Keeps-write_hold :
      (r : BookingRequest) (p : String) (q : Option String) (s : Service) (a : ℕ) (c : String)
      → Keeps P (write_hold env r p q s a c)
  unfolding write_hold
  Keeps-write_hold r p q s a c = search parts depth 14

  Keeps-create_pending_payment_hold :
      (r : BookingRequest) (p : String) (q : Option String)
      → Keeps P (create_pending_payment_hold env r p q)
  unfolding create_pending_payment_hold
  Keeps-create_pending_payment_hold r p q = search (parts, Keeps-write_hold) depth 14

  confirm_hold-KeepsAt :
      (s : Session) (i t : ℕ) (p : Option String) (source : String) (b : Booking)
      → find_by (is_booking i t) s.db.bookings ≡ some b
      → b.status ≡ BookingStatus.pending_payment
      → KeepsAt P s (confirm_hold env t p source b)
  unfolding confirm_hold
  confirm_hold-KeepsAt s i t p source b e waits = KeepsAt-read s _ _ λ payment _.
      KeepsAt-read s _ _ λ _ _.
        KeepsAt-modify s _ _ (λ h. h)
          (KeepsAt-modify _ _ _
            ((stable.beside s.db.voice_sessions).confirmed i t b s.db.bookings e waits)
            (KeepsAt-Keeps _ _ (search parts depth 14)))

  Keeps-if : (paid : Bool) (b : Booking) (e : Error) → Keeps P (if paid then pure b else raise e)
  Keeps-if true b e = search keeps_rules
  Keeps-if false b e = search keeps_rules

  confirm_by_status-KeepsAt :
      (status : BookingStatus) (s : Session) (i t : ℕ) (p : Option String) (source : String)
      (b : Booking)
      → find_by (is_booking i t) s.db.bookings ≡ some b
      → b.status ≡ status
      → KeepsAt P s (confirm_by_status status env t p source b)
  unfolding confirm_by_status
  confirm_by_status-KeepsAt BookingStatus.confirmed s i t p source b e st =
      KeepsAt-Keeps s _ (search (keeps_rules, Keeps-if))
  confirm_by_status-KeepsAt BookingStatus.cancelled s i t p source b e st =
      KeepsAt-Keeps s _ (search keeps_rules)
  confirm_by_status-KeepsAt BookingStatus.pending_payment s i t p source b e st =
      confirm_hold-KeepsAt s i t p source b e st

  Keeps-confirm_booking_payment :
      (i b t : ℕ) (p : Option String) (source : String)
      → Keeps P (confirm_booking_payment env i b t p source)
  unfolding confirm_booking_payment
  Keeps-confirm_booking_payment i b t p source = KeepsAt-all _ λ s.
      KeepsAt-read s _ _ λ row e.
        confirm_by_status-KeepsAt row.status s i t p source row (found_row s.db i b t e) refl

  Keeps-refund_booking_payment :
      (i b t : ℕ) (a : Option ℕ) (reason : Option String)
      → Keeps P (refund_booking_payment env i b t a reason)
  unfolding refund_booking_payment
  Keeps-refund_booking_payment i b t a reason = search parts depth 14

  Keeps-offer_first :
      (b : Booking) (t : ℕ) (biz : Business) (s : Service) (es : List WaitlistEntry)
      → Keeps P (offer_first env b t biz s es)
  unfolding offer_first
  Keeps-offer_first b t biz s [] = search parts
  Keeps-offer_first b t biz s (e ∷ es) = search parts depth 10

  Keeps-offer_expired :
      (b : Booking) (t : ℕ) (es : List WaitlistEntry) → Keeps P (offer_expired env b t es)
  unfolding offer_expired
  Keeps-offer_expired b t [] = search parts
  Keeps-offer_expired b t (e ∷ es) = search parts depth 10

  Keeps-write_cancellation :
      (t : ℕ) (reason : Option String) (a : Option ℕ) (override : Bool) (b : Booking)
      → Keeps P (write_cancellation env t reason a override b)
  unfolding write_cancellation
  Keeps-write_cancellation t reason a override b = search (parts, Keeps-offer_first) depth 24

  pub Keeps-cancel_booking :
      (i b t : ℕ) (reason : Option String) (a : Option ℕ) (override : Bool)
      → Keeps P (cancel_booking env i b t reason a override)
  unfolding cancel_booking
  Keeps-cancel_booking i b t reason a override = search (parts, Keeps-write_cancellation) depth 8

  Keeps-expire_pending_payment_hold : (i b t : ℕ) → Keeps P (expire_pending_payment_hold env i b t)
  unfolding expire_pending_payment_hold
  Keeps-expire_pending_payment_hold i b t = search (parts, Keeps-offer_expired) depth 20

  Keeps-handle_conflict : (r : Result Booking) → Keeps P (handle_conflict r)
  unfolding handle_conflict
  Keeps-handle_conflict (ok b) = record { at = λ s h. h }
  Keeps-handle_conflict (err (conflict m)) = record { at = λ s h. (h.1, h.1) }
  Keeps-handle_conflict (err e) = record { at = λ s h. h }

  Keeps-try_expire : (b : Booking) → Keeps P (try_expire env b)
  unfolding try_expire
  Keeps-try_expire b = record {
    at = λ s h.
        let (r, s') = expire_pending_payment_hold env b.id b.business_id b.tenant_id s in
        (Keeps-handle_conflict r).at s'
          ((Keeps-expire_pending_payment_hold b.id b.business_id b.tenant_id).at s h);
  }

  Keeps-expire_each : (bs : List Booking) (n : ℕ) → Keeps P (expire_each env bs n)
  unfolding expire_each
  Keeps-expire_each [] n = search keeps_rules
  Keeps-expire_each (b ∷ rest) n =
      Keeps-bind _ _ (Keeps-try_expire b) λ expired. Keeps-expire_each rest _

  pub Keeps-reschedule_booking :
      (lineage : ℕ → String) (i b t at : ℕ) (reason : Option String) (a : Option ℕ)
      (source : String)
      → Keeps P (reschedule_booking env lineage i b t at reason a source)
  unfolding reschedule_booking
  Keeps-reschedule_booking lineage i b t at reason a source =
      search (parts, Keeps-cancel_booking, Keeps-create_booking) depth 12

  -- Every call keeps the invariant, in the open transaction and in what is committed, whether it
  -- returns or raises.
  pub perform-Keeps : (call : Call) → Keeps P (perform env call)
  unfolding perform expire_stale_payment_holds
  perform-Keeps (create r actor override reason) = search (parts, Keeps-create_booking)
  perform-Keeps (hold r p q) = search (parts, Keeps-create_pending_payment_hold)
  perform-Keeps (confirm i b t p source) = search (parts, Keeps-confirm_booking_payment)
  perform-Keeps (refund i b t a reason) = search (parts, Keeps-refund_booking_payment)
  perform-Keeps (cancel i b t reason a override) = search (parts, Keeps-cancel_booking)
  perform-Keeps (expire i b t) = search (parts, Keeps-expire_pending_payment_hold)
  perform-Keeps (reschedule l i b t at reason a source) = search (parts, Keeps-reschedule_booking)
  perform-Keeps sweep = search (parts, Keeps-expire_each)
