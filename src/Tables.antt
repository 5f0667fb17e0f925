-- ===== src/Tables.antt =====
-- The rows of app/models/*.py that the services read and write, and the database that holds them.
-- An instant is a number of microseconds since the epoch (UTC), a date the number of days since
-- it, a time of day the microseconds since midnight. Columns that no modelled function reads or
-- writes are left out.
mod Rows
mod Records
mod Voice
pub use Rows.*
pub use Records.*
pub use Voice.*
use appointment_voice_saas.Common.{ℕ, ◌+◌, ◌*◌, ◌/◌, ◌%◌, List}

-- timedelta(minutes=n)
abbrev pub minutes : ℕ → ℕ
minutes n = n * 60000000

-- timedelta(days=1)
abbrev pub day : ℕ
day = 86400000000

-- datetime.combine(date, time), as a wall-clock reading
abbrev pub combine : ℕ → ℕ → ℕ
combine date time = date * day + time

-- datetime.date() of a UTC instant
abbrev pub date_of : ℕ → ℕ
date_of instant = instant / day

-- date.weekday(): the epoch was a Thursday, and Monday is 0
abbrev pub weekday : ℕ → ℕ
weekday date = (date + 3) % 7

-- Each table in the order in which a scan without an ORDER BY returns it.
pub record Db : Type 0 where
  pub businesses : List Business
  pub customers : List Customer
  pub clients : List Client
  pub services : List Service
  pub staff : List Staff
  pub working_hours : List WorkingHours
  pub exceptions : List AvailabilityException
  pub blocks : List RecurringStaffBlock
  pub bookings : List Booking
  pub line_items : List BookingLineItem
  pub payments : List BookingPayment
  pub waitlist : List WaitlistEntry
  pub audit_logs : List AuditLog
  pub outbox : List NotificationOutbox
  pub integrations : List CalendarIntegration
  pub calendar_events : List CalendarEvent
  pub idempotency_records : List IdempotencyRecord
  pub voice_sessions : List VoiceSession
