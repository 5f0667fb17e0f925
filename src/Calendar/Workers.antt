-- ===== src/Calendar/Workers.antt =====
-- app/services/calendar_service.py: `sync_calendar_event_in_worker` and
-- `cancel_calendar_event_in_worker`, which jobs of the worker run. The calendar provider
-- (app/services/calendar_provider.py) is an argument: what it answers to a payload or an event id.
use Prim.Native.String.{◌++◌}
use appointment_voice_saas.Common.{
  ℕ, ◌+◌, String, Option, none, some, Bool, true, false, ◌==◌, leb, find_by, update_where,
  if◌then◌else◌, prefix_of,
}
use appointment_voice_saas.Tables.{
  Db, Booking, Service, Staff, CalendarEvent, CalendarSyncStatus, CalendarIntegration,
  CalendarVisibility,
}
use appointment_voice_saas.Errors.{
  Result, ok, err, or_raise, no_result_found, calendar_sync_error, calendar_cancel_error,
}
use appointment_voice_saas.Session.{Action, pure, raise, read, query, modify, commit, ◌>>=◌, ◌>>◌}
use appointment_voice_saas.Env.{Env}
use appointment_voice_saas.Calendar.{get_calendar_integration}

pub record CalendarEventPayload : Type 0 where
  pub title : String
  pub starts_at : ℕ
  pub ends_at : ℕ

pub record CalendarResult : Type 0 where
  pub success : Bool
  pub provider_event_id : Option String
  pub error : Option String

pub record CalendarProvider : Type 0 where
  pub create_event : CalendarEventPayload → CalendarResult
  pub cancel_event : Option String → CalendarResult

abbrev pub title_of : Service → Option Staff → String
title_of service none = service.name
title_of service (some staff) = service.name ++ " – " ++ staff.name

abbrev pub visibility_of : Option CalendarIntegration → CalendarVisibility
visibility_of none = CalendarVisibility.visible_public
visibility_of (some integration) = integration.visibility

-- `_build_event_payload`
unfoldable pub build_event_payload :
    CalendarVisibility → Booking → Service → Option Staff → CalendarEventPayload
build_event_payload CalendarVisibility.visible_private booking service staff = record {
  title = "Busy";
  starts_at = booking.starts_at;
  ends_at = booking.ends_at;
}
build_event_payload CalendarVisibility.visible_public booking service staff = record {
  title = title_of service staff;
  starts_at = booking.starts_at;
  ends_at = booking.ends_at;
}

abbrev pub is_event : ℕ → CalendarEvent → Bool
is_event event_id e = e.id == event_id

-- UPDATE calendar_events SET ... WHERE id = ...
abbrev pub update_event : ℕ → (CalendarEvent → CalendarEvent) → Db → Db
update_event event_id change db = record db {
  calendar_events = update_where (is_event event_id) change db.calendar_events;
}

-- `(error or "")[:500]`
abbrev pub error_text : Option String → Option String
error_text none = some ""
error_text (some error) = some (prefix_of 500 error)

-- `.one()` by primary key
abbrev pub booking_of_event : CalendarEvent → Db → Result Booking
booking_of_event event db =
    or_raise (find_by (λ (b : Booking). b.id == event.booking_id) db.bookings) no_result_found

abbrev pub service_of_booking : Booking → Db → Result Service
service_of_booking booking db =
    or_raise (find_by (λ (s : Service). s.id == booking.service_id) db.services) no_result_found

abbrev pub some_result : Result Staff → Result (Option Staff)
some_result (ok staff) = ok (some staff)
some_result (err e) = err e

abbrev pub staff_by_id : Option ℕ → Db → Result (Option Staff)
staff_by_id none db = ok none
staff_by_id (some staff_id) db =
    some_result (or_raise (find_by (λ (m : Staff). m.id == staff_id) db.staff) no_result_found)

abbrev pub synced_row : Env → CalendarResult → CalendarEvent → CalendarEvent
synced_row env result e = record e {
  attempts = e.attempts + 1;
  status = CalendarSyncStatus.synced;
  provider_event_id = result.provider_event_id;
  synced_at = some env.now;
}

abbrev pub unsynced_row : Env → CalendarResult → CalendarEvent → CalendarEvent
unsynced_row env result e = record e {
  attempts = e.attempts + 1;
  last_error = error_text result.error;
  status =
      if leb env.worker_max_retries (e.attempts + 1) then CalendarSyncStatus.failed else e.status;
}

-- From the provider's answer on.
unfoldable pub record_sync : Env → CalendarEvent → CalendarResult → Action (Unit {0})
record_sync env event result =
    if result.success
    then modify (update_event event.id (synced_row env result)) >> commit
    else (modify (update_event event.id (unsynced_row env result))
        >> commit
        >> (if leb env.worker_max_retries (event.attempts + 1)
            then pure tt
            else raise (calendar_sync_error result.error)))

unfoldable pub sync_booking : Env → CalendarProvider → CalendarEvent → Booking → Action (Unit {0})
sync_booking env provider event booking = do
  service ← read (service_of_booking booking)
  staff ← read (staff_by_id booking.staff_id)
  integration ←
      query
        (λ db. get_calendar_integration db booking.business_id booking.tenant_id booking.staff_id)
  record_sync env event (
      provider.create_event (build_event_payload (visibility_of integration) booking service staff))

abbrev pub is_unsynced : CalendarSyncStatus → Bool
is_unsynced CalendarSyncStatus.pending = true
is_unsynced CalendarSyncStatus.synced = false
is_unsynced CalendarSyncStatus.failed = true
is_unsynced CalendarSyncStatus.cancelled = false
is_unsynced CalendarSyncStatus.cancel_failed = false

unfoldable pub sync_event : Env → CalendarProvider → CalendarEvent → Action (Unit {0})
sync_event env provider event = do
  booking ← read (booking_of_event event)
  if booking.tenant_id == event.tenant_id then sync_booking env provider event booking else pure tt

abbrev pub sync_found : Env → CalendarProvider → Option CalendarEvent → Action (Unit {0})
sync_found env provider none = pure tt
sync_found env provider (some event) =
    if is_unsynced event.status then sync_event env provider event else pure tt

unfoldable pub sync_calendar_event_in_worker : Env → CalendarProvider → ℕ → Action (Unit {0})
sync_calendar_event_in_worker env provider event_id = do
  event ← query (λ db. find_by (is_event event_id) db.calendar_events)
  sync_found env provider event

abbrev pub cancelled_row : CalendarEvent → CalendarEvent
cancelled_row e = record e { status = CalendarSyncStatus.cancelled }

abbrev pub withdrawn_row : CalendarEvent → CalendarEvent
withdrawn_row e = record e {
  cancel_attempts = e.cancel_attempts + 1;
  status = CalendarSyncStatus.cancelled;
}

abbrev pub not_withdrawn_row : Env → CalendarResult → CalendarEvent → CalendarEvent
not_withdrawn_row env result e = record e {
  cancel_attempts = e.cancel_attempts + 1;
  last_error = error_text result.error;
  status =
      if leb env.worker_max_retries (e.cancel_attempts + 1)
      then CalendarSyncStatus.cancel_failed
      else e.status;
}

unfoldable pub record_cancel : Env → CalendarEvent → CalendarResult → Action (Unit {0})
record_cancel env event result =
    if result.success
    then modify (update_event event.id withdrawn_row) >> commit
    else (modify (update_event event.id (not_withdrawn_row env result))
        >> commit
        >> (if leb env.worker_max_retries (event.cancel_attempts + 1)
            then pure tt
            else raise (calendar_cancel_error result.error)))

-- An event that was never synced needs no provider.
unfoldable pub cancel_at_provider : Env → CalendarProvider → CalendarEvent → Action (Unit {0})
cancel_at_provider env provider event =
    if is_unsynced event.status
    then modify (update_event event.id cancelled_row) >> commit
    else record_cancel env event (provider.cancel_event event.provider_event_id)

unfoldable pub cancel_event : Env → CalendarProvider → CalendarEvent → Action (Unit {0})
cancel_event env provider event = do
  booking ← read (booking_of_event event)
  if booking.tenant_id == event.tenant_id then cancel_at_provider env provider event else pure tt

abbrev pub is_closed_event : CalendarSyncStatus → Bool
is_closed_event CalendarSyncStatus.pending = false
is_closed_event CalendarSyncStatus.synced = false
is_closed_event CalendarSyncStatus.failed = false
is_closed_event CalendarSyncStatus.cancelled = true
is_closed_event CalendarSyncStatus.cancel_failed = true

abbrev pub cancel_found : Env → CalendarProvider → Option CalendarEvent → Action (Unit {0})
cancel_found env provider none = pure tt
cancel_found env provider (some event) =
    if is_closed_event event.status then pure tt else cancel_event env provider event

unfoldable pub cancel_calendar_event_in_worker : Env → CalendarProvider → ℕ → Action (Unit {0})
cancel_calendar_event_in_worker env provider event_id = do
  event ← query (λ db. find_by (is_event event_id) db.calendar_events)
  cancel_found env provider event
