-- ===== src/Reconciliation.antt =====
-- app/services/reconciliation_service.py: jobs for the rows whose own job never came.
pub mod Sweep
pub mod Windows
use appointment_voice_saas.Common.{
  ℕ, ◌+◌, Option, none, some, List, [], ◌∷◌, Bool, true, false, ◌&&◌, ltb, filter_by, length,
}
use appointment_voice_saas.Tables.{NotificationOutbox, CalendarEvent, minutes}
use appointment_voice_saas.Session.{Action, pure, query, modify, commit, ◌>>=◌, ◌>>◌}
use appointment_voice_saas.Env.{Env}
use appointment_voice_saas.Outbox.{enqueue_send_notification_job}
use appointment_voice_saas.Outbox.Delivery.{notification_is_pending, update_notification}
use appointment_voice_saas.Calendar.{enqueue_sync_calendar_event_job}
use appointment_voice_saas.Calendar.Workers.{is_unsynced, update_event}

-- `now or datetime.now(timezone.utc)`
abbrev pub current_time : Env → Option ℕ → ℕ
current_time env none = env.now
current_time env (some now) = now

-- func.coalesce(reconciled_at, created_at)
abbrev pub last_touched : Option ℕ → ℕ → ℕ
last_touched none created_at = created_at
last_touched (some reconciled_at) created_at = reconciled_at

-- last_touched < current_time - timedelta(minutes=...)
abbrev pub is_past_window : Env → ℕ → ℕ → Bool
is_past_window env now touched = ltb (touched + minutes env.worker_reconciliation_stale_minutes) now

abbrev pub is_stale_notification : Env → ℕ → NotificationOutbox → Bool
is_stale_notification env now n =
    notification_is_pending n.status
    && is_past_window env now (last_touched n.reconciled_at n.created_at)

abbrev pub is_stale_event : Env → ℕ → CalendarEvent → Bool
is_stale_event env now e =
    is_unsynced e.status && is_past_window env now (last_touched e.reconciled_at e.created_at)

abbrev pub reconciled_notification : ℕ → NotificationOutbox → NotificationOutbox
reconciled_notification now n = record n { reconciled_at = some now }

abbrev pub reconciled_event : ℕ → CalendarEvent → CalendarEvent
reconciled_event now e = record e { reconciled_at = some now }

unfoldable pub requeue_notifications : ℕ → List NotificationOutbox → Action (Unit {0})
requeue_notifications now [] = pure tt
requeue_notifications now (intent ∷ rest) =
    enqueue_send_notification_job intent.id
    >> modify (update_notification intent.id (reconciled_notification now))
    >> requeue_notifications now rest

unfoldable pub requeue_events : ℕ → List CalendarEvent → Action (Unit {0})
requeue_events now [] = pure tt
requeue_events now (event ∷ rest) =
    enqueue_sync_calendar_event_job event.id
    >> modify (update_event event.id (reconciled_event now))
    >> requeue_events now rest

-- if stale: db.commit()
abbrev pub commit_if_any {ℓ} : {A : Type ℓ} → List A → Action (Unit {0})
commit_if_any [] = pure tt
commit_if_any (x ∷ rest) = commit

unfoldable pub reconcile_stale_notifications : Env → Option ℕ → Action ℕ
reconcile_stale_notifications env now = do
  stale ← query (λ db. filter_by (is_stale_notification env (current_time env now)) db.outbox)
  requeue_notifications (current_time env now) stale
  commit_if_any stale
  pure (length stale)

unfoldable pub reconcile_stale_calendar_events : Env → Option ℕ → Action ℕ
reconcile_stale_calendar_events env now = do
  stale ← query (λ db. filter_by (is_stale_event env (current_time env now)) db.calendar_events)
  requeue_events (current_time env now) stale
  commit_if_any stale
  pure (length stale)
