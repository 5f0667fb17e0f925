-- ===== src/Calendar.antt =====
-- app/services/calendar_service.py: the calendar rows that the booking services write and queue.
pub mod Workers
pub mod Stages
pub mod Moves
pub mod Runs
use appointment_voice_saas.Common.{
  ℕ, String, Option, none, some, ◌∷◌, ◌&&◌, ◌==◌, is_id, is_none, find_by, any_of, if◌then◌else◌,
}
use appointment_voice_saas.Tables.{
  Db, Business, Booking, CalendarIntegration, CalendarEvent, CalendarSyncStatus,
}
use appointment_voice_saas.Errors.{Result, ok, err, integrity_error, uq_calendar_events_booking_id}
use appointment_voice_saas.Session.{
  Action, sync_calendar_event, cancel_calendar_event, pure, read, query, modify, fresh_id,
  enqueue_job, ◌>>=◌, ◌>>◌,
}
use appointment_voice_saas.Env.{Env}

-- The active row of exactly this scope: a staff member's, or the business-wide one.
unfoldable pub integration_of : Db → ℕ → ℕ → Option ℕ → Option CalendarIntegration
integration_of db business_id tenant_id (some staff_id) =
    find_by
      (λ (c : CalendarIntegration).
        c.business_id == business_id
        && c.tenant_id == tenant_id
        && is_id c.staff_id staff_id
        && c.is_active)
      db.integrations
integration_of db business_id tenant_id none =
    find_by
      (λ (c : CalendarIntegration).
        c.business_id == business_id
        && c.tenant_id == tenant_id
        && is_none c.staff_id
        && c.is_active)
      db.integrations

abbrev or_else {ℓ} : {A : Type ℓ} → Option A → Option A → Option A
or_else none other = other
or_else (some a) other = some a

-- `_get_calendar_integration`: the staff member's own calendar first, then the business's.
unfoldable pub get_calendar_integration : Db → ℕ → ℕ → Option ℕ → Option CalendarIntegration
unfolding integration_of
get_calendar_integration db business_id tenant_id none =
    integration_of db business_id tenant_id none
get_calendar_integration db business_id tenant_id (some staff_id) =
    or_else (integration_of db business_id tenant_id (some staff_id))
      (integration_of db business_id tenant_id none)

abbrev pub provider_name : Option CalendarIntegration → String
provider_name none = "null"
provider_name (some integration) = integration.provider

abbrev pub add_event : CalendarEvent → Db → Db
add_event row db = record db { calendar_events = row ∷ db.calendar_events }

-- The UNIQUE constraint of calendar_events.
abbrev pub no_event_yet : ℕ → Db → Result (Unit {0})
no_event_yet booking_id db =
    if any_of (λ (e : CalendarEvent). e.booking_id == booking_id) db.calendar_events
    then err (integrity_error uq_calendar_events_booking_id)
    else ok tt

unfoldable pub enqueue_calendar_event : Env → Booking → Business → Action CalendarEvent
unfolding get_calendar_integration
enqueue_calendar_event env booking business = do
  integration ←
      query (λ db. get_calendar_integration db business.id booking.tenant_id booking.staff_id)
  id ← fresh_id
  let row : CalendarEvent = record {
    id = id;
    tenant_id = booking.tenant_id;
    business_id = booking.business_id;
    booking_id = booking.id;
    provider = provider_name integration;
    provider_event_id = none;
    status = CalendarSyncStatus.pending;
    attempts = 0;
    cancel_attempts = 0;
    last_error = none;
    created_at = env.now;
    synced_at = none;
    reconciled_at = none;
  }
  read (no_event_yet booking.id)
  modify (add_event row)
  pure row

unfoldable pub get_calendar_event_for_booking : Db → ℕ → ℕ → Option CalendarEvent
get_calendar_event_for_booking db booking_id tenant_id =
    find_by (λ (e : CalendarEvent). e.booking_id == booking_id && e.tenant_id == tenant_id)
      db.calendar_events

unfoldable pub enqueue_sync_calendar_event_job : ℕ → Action (Unit {0})
enqueue_sync_calendar_event_job event_id = enqueue_job (sync_calendar_event event_id)

unfoldable pub enqueue_cancel_calendar_event_job : ℕ → Action (Unit {0})
enqueue_cancel_calendar_event_job event_id = enqueue_job (cancel_calendar_event event_id)
