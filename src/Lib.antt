-- ===== src/Lib.antt =====
-- VoxSlot, an appointment service: its booking core, its slot search, its
-- customers, and the queue and the workers behind them.
--
-- A salon (business) of a tenant has services, staff, working hours and customers. A search
-- (app/services/availability_service.py) offers slots; a call (from the HTTP routes, an SMS reply,
-- the voice dialogue or a worker's sweep) creates, holds, confirms, refunds, cancels, expires or
-- moves a booking (app/services/booking_service.py). Each call reads the tables, writes bookings,
-- payments, audit rows, SMS intents and calendar rows in one transaction, commits, and then pushes
-- jobs to Redis for the workers. A freed slot is offered to the waitlist.
--
-- Files, and the code that they are about:
--   * Common, Common/Tests, Common/Lists, Common/Texts: shared names, Boolean tests, lists and texts
--     under tests. Common/Decimal: str() and int() of a number, and that they go together.
--   * Tables, Tables/Rows, Tables/Records: app/models/*.py, with the columns that are used.
--   * Errors: app/core/domain_errors.py, the database's constraint errors, and the error of Redis;
--     `never_ends` stands for a statement that does not end.
--   * Session: app/db/session.py. An action takes the session to a result and a session; the
--     rollback that closing a failed session means is left to the caller, and `committed` is what
--     the database holds then. Session/Keeps and Session/Atomic carry the rules for invariants and
--     for all-or-nothing, one for each way to build an action;
--     Session/Returns takes an action that returns apart; Session/Answers says whether Redis takes
--     a row of pushes.
--   * Env: clock, settings, formatting and the other transactions' writes, as parameters.
--   * Lookups: the `get_*` and `require_*` functions of app/services/{business, customer, service,
--     staff, client}_service.py.
--   * Audit: `create_audit_log` of app/services/audit_log_service.py.
--   * Outbox: app/services/notification_service.py. Delivery is `send_notification_in_worker`,
--     Reminders the reminders; Fate and Reminders/Once prove.
--   * Calendar: app/services/calendar_service.py. Workers is its two workers; Stages is what they
--     may do to an event as a step relation, and Runs proves that they do no more.
--   * Waitlist: app/services/waitlist_service.py. Entries and Expiry are its other operations;
--     Expiry/Offers proves.
--   * Reconciliation: app/services/reconciliation_service.py; Sweep and Windows prove.
--   * Customers: app/services/customer_service.py; Phones, Erasure and Keeps prove.
--   * PublicLinks: app/services/booking_public_service.py, with the HMAC as a parameter; Tokens and
--     Tokens/Genuine prove.
--   * Idempotency: app/services/idempotency_service.py, with SHA-256 as a parameter; Replay proves.
--   * SmsReplies: app/services/sms_reply_service.py; Outcomes proves.
--   * Voice: app/services/ivr_service.py, app/core/ivr.py and app/core/ivr_prompts.py, on the rows of
--     Tables/Voice. Prompts is the prompt tables, Responses what a caller hears, Queries the reads,
--     Steps what the handlers share and the repeated prompts, Menus and Choices the handlers, Calls
--     `start_session`, `handle_keypress` and `expire_stale_sessions`. Moves states what a press may
--     do to the row of a call as a step relation, and its children follow the handlers; Runs,
--     Endings, Silence, Sweep, Offers, Bookings, Slots, Manage and Prompts/Fields prove.
--   * Availability: Windows is `_intersect_time_windows` and `_subtract_time_windows`, Slots is
--     `_slots_in_window`, Search is `_get_available_slots_for_duration` with its two callers;
--     Search/Rows says when a salon is open by the rows of its tables.
--   * Booking: Overlap is `_check_double_booking` and the exclusion constraint of
--     alembic/versions/p3008_add_pending_payment_state.py; Reads, Lists, LineItems, Create,
--     Payment, Cancel and Reschedule are the operations under their own names; Calls lists them as
--     data. The other modules under Booking are named for what they prove. Booking/Outcome follows
--     the bookings through a call that returns (Session/Frames and Session/Lands carry its rules).
--   * Jobs: app/core/job_queue.py (Job, Redis, Queue) and `process_next_job` of app/worker.py
--     (Worker), on the Redis structures as lists; what `handle_job` does is an argument of Worker.
--     Dequeued, Conservation, Round and Backoff prove. Handler is `handle_job` itself, with the
--     password reset mails, the upload checks and the reading of a JSON payload as arguments;
--     Handler/Messages proves. Session keeps the pushes of the services apart.
--   * Tests: one small salon, on which every result is tried.
--
-- Instants are microseconds since the epoch, so no bound is put on them. The slot loop runs on
-- fuel: one round for each slot that fits into the window and one to leave the loop.
--
-- Concurrency: the bookings that other transactions commit between a call's overlap query and its
-- INSERT are a parameter (`raced`), which only the constraint sees; rows that others have locked
-- are a predicate (`is_locked`). Row locks make a locked read the current one.
--
-- A push to Redis may raise: which of the next pushes do is part of the session (`answers`), and a
-- call that pushes behind its commit may so raise with all of it committed. The locks of Redis, and
-- what the worker asks of its queues, are taken to be answered.
--
-- What a provider answers to a message or an event is an argument of the worker that asks it. A
-- number is printed on fuel: itself, and it has no more digits than that.
--
-- A call keeps the slots that it has offered as JSON; the model keeps the list that it encodes. A
-- search for slots that does not end, for a service of no length, is the error `never_ends`.
--
-- Not modelled: FastAPI routes and schemas, authentication, the Twilio webhook that drives the voice
-- dialogue, file storage, the writes of businesses, services, staff and clients, the time zone
-- database (a parameter), the length limits of text columns, metrics and logs, the frontend.
pub mod Common
pub mod Tables
pub mod Errors
pub mod Lookups
pub mod Session
pub mod Env
pub mod Audit
pub mod Customers
pub mod PublicLinks
pub mod Idempotency
pub mod Outbox
pub mod Calendar
pub mod Reconciliation
pub mod Waitlist
pub mod Booking
pub mod SmsReplies
pub mod Availability
pub mod Voice
pub mod Jobs
pub mod Tests
