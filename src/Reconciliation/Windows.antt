-- ===== src/Reconciliation/Windows.antt =====
-- Two sweeps of app/services/reconciliation_service.py, one after the other.
use appointment_voice_saas.Common.{
  ℕ, ◌+◌, ◌≤◌, some, List, [], ◌∷◌, ◌++◌, map, Bool, false, ◌&&◌, ◌≡◌, refl, ap, ◌==◌, any_of,
  filter_by, Bool-cases, inl, inr, All, arith,
}
use appointment_voice_saas.Tables.{NotificationOutbox, CalendarEvent, minutes}
use appointment_voice_saas.Session.{Session, JobRequest, send_notification, sync_calendar_event}
use appointment_voice_saas.Session.Answers.{beyond}
use appointment_voice_saas.Env.{Env}
use appointment_voice_saas.Outbox.Delivery.{notification_is_pending}
use appointment_voice_saas.Calendar.Workers.{is_unsynced}
use appointment_voice_saas.Reconciliation.{
  is_past_window, is_stale_notification, is_stale_event, reconciled_notification, reconciled_event,
  reconcile_stale_notifications, reconcile_stale_calendar_events,
}
use appointment_voice_saas.Reconciliation.Sweep.{
  mark_those, notifications_swept, events_swept, sweeps_lem, Swept-up,
}

-- No id is in both lists.
abbrev pub Apart : List ℕ → List ℕ → Type 0
Apart first second = All (λ i. any_of (λ j. i == j) first ≡ false) second

-- What two sweeps queue: jobs of this kind, the second none for a row that the first queued.
pub record QueuedOnce (job : ℕ → JobRequest) (before between after : List JobRequest) : Type 0 where
  pub first : List ℕ
  pub second : List ℕ
  pub by_first : between ≡ before ++ map job first
  pub by_second : after ≡ between ++ map job second
  pub apart : Apart first second

module _ {A : Type 0} (id_of : A → ℕ) (mark : A → A) (stale : A → Bool)
    (settled : (a : A) → stale (mark a) ≡ false) where
  pub Apart-mark_those :
      (ids : List ℕ) (rows : List A)
      → Apart ids (map id_of (filter_by stale (mark_those id_of mark ids rows)))
  Apart-mark_those ids [] = tt
  Apart-mark_those ids (a ∷ rows) = elim (Bool-cases (any_of (λ i. id_of a == i) ids)) [
    | inl marked ↦ rw (marked, settled a) (Apart-mark_those ids rows)
    | inr apart ↦ rw apart (elim (Bool-cases (stale a)) [
      | inl due ↦ rw due (apart, Apart-mark_those ids rows)
      | inr early ↦ rw early (Apart-mark_those ids rows)
    ])
  ]

inside_window :
    (env : Env) (now later : ℕ) (b : Bool)
    → later ≤ now + minutes env.worker_reconciliation_stale_minutes
    → (b && is_past_window env later now) ≡ false
inside_window env now later b h = ground arith

-- Of two sweeps, the second at most `worker_reconciliation_stale_minutes` after the first, in a
-- session without open changes whose pushes Redis takes: the second queues no job for a row that the first has queued one
-- for, be it a notification or a calendar event.
pub sweeps-QueuedOnce :
    (env : Env) (now later : ℕ) (s : Session)
    → s.db ≡ s.committed
    → s.answers ≡ []
    → later ≤ now + minutes env.worker_reconciliation_stale_minutes
    → (let between = (reconcile_stale_notifications env (some now) s).1 in
        QueuedOnce send_notification s.queued between.queued
          (reconcile_stale_notifications env (some later) between).1.queued)
      × (let between = (reconcile_stale_calendar_events env (some now) s).1 in
          QueuedOnce sync_calendar_event s.queued between.queued
            (reconcile_stale_calendar_events env (some later) between).1.queued)
sweeps-QueuedOnce env now later s clean up h =
    let notifications = notifications_swept env now s in
    let events = events_swept env now s in
    let stale_notifications = filter_by (is_stale_notification env now) s.db.outbox in
    let stale_events = filter_by (is_stale_event env now) s.db.calendar_events in
    let first = sweeps_lem env (some now) s clean in
    let first_notifications = Swept-up stale_notifications _ _ s up first.0 in
    let first_events = Swept-up stale_events _ _ s up first.1 in
    let second_notifications =
      Swept-up (filter_by (is_stale_notification env later) notifications.db.outbox) _ _
        notifications (ap (beyond stale_notifications) up)
        (sweeps_lem env (some later) notifications refl).0 in
    let second_events =
      Swept-up (filter_by (is_stale_event env later) events.db.calendar_events) _ _ events
        (ap (beyond stale_events) up) (sweeps_lem env (some later) events refl).1 in
    rw (first_notifications, first_events, second_notifications, second_events)
      (
        record {
          first = _;
          second = _;
          by_first = refl;
          by_second = refl;
          apart =
              Apart-mark_those (λ (n : NotificationOutbox). n.id) (reconciled_notification now)
                (is_stale_notification env later)
                (λ n. inside_window env now later (notification_is_pending n.status) h) _
                s.db.outbox;
        },
        record {
          first = _;
          second = _;
          by_first = refl;
          by_second = refl;
          apart =
              Apart-mark_those (λ (e : CalendarEvent). e.id) (reconciled_event now)
                (is_stale_event env later)
                (λ e. inside_window env now later (is_unsynced e.status) h) _ s.db.calendar_events;
        },
      )
