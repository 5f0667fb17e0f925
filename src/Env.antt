-- ===== src/Env.antt =====
-- What the services take from outside: the clock, app/core/config.py's settings, zoneinfo and
-- strftime, hashlib, the Unicode tables, and the locks of other transactions.
use appointment_voice_saas.Common.{
  ℕ, ◌-◌, String, Bool, true, ◌&&◌, Option, none, some, List, ltb, leb, if◌then◌else◌, is_blank,
}
use appointment_voice_saas.Tables.{Booking, Customer, IdempotencyRecord}

pub record Env : Type 0 where
  -- datetime.now(timezone.utc), and func.now() in the database
  pub now : ℕ
  pub booking_payment_hold_minutes : ℕ
  pub waitlist_offer_timeout_minutes : ℕ
  pub worker_max_retries : ℕ
  pub worker_reconciliation_stale_minutes : ℕ
  pub reminder_lead_minutes : ℕ
  pub reminder_min_advance_minutes : ℕ
  -- `_format_local_time`: an instant in a named zone, as "%Y-%m-%d %H:%M"
  pub format_local_time : String → ℕ → String
  -- strftime("%Y-%m-%d") of a date
  pub format_date : ℕ → String
  pub booking_public_base_url : String
  -- The hexdigest of HMAC-SHA256 of a message, under the signing key.
  pub hmac_sha256 : String → String
  -- unicodedata.decimal of a character that is not ASCII
  pub wide_digit : ℕ → Option ℕ
  -- Bookings that other transactions commit between the overlap query of this call and its
  -- INSERT: no query of this call reads them, and the constraints that the INSERT is checked
  -- against see them.
  pub raced : List Booking
  -- Customers that other transactions commit between the lookup of `get_or_create_customer` and its
  -- INSERT.
  pub raced_customers : List Customer
  -- Responses that other requests store under their keys before this one stores its own.
  pub raced_responses : List IdempotencyRecord
  -- The hexdigest of SHA-256.
  pub sha256 : String → String
  pub idempotency_ttl_seconds : ℕ
  pub idempotency_processing_lock_ttl_seconds : ℕ
  -- Waitlist rows that another transaction has locked.
  pub is_locked : ℕ → Bool
  -- date.today(), the date on the server's own clock
  pub today : ℕ
  -- zoneinfo: a wall-clock reading in a named zone, as an instant
  pub to_utc : String → ℕ → ℕ
  -- strftime of an instant
  pub strftime : String → ℕ → String
  pub ivr_session_ttl_minutes : ℕ
  pub ivr_slot_search_days : ℕ
  pub ivr_max_slots : ℕ

-- The decimal value of a character, the Unicode digits beyond ASCII included.
abbrev pub digit_value : Env → ℕ → Option ℕ
digit_value env c =
    if ltb c 128 then (if leb 48 c && leb c 57 then some (c - 48) else none) else env.wide_digit c

-- `not (text or "").strip()`
abbrev pub is_missing : Option String → Bool
is_missing none = true
is_missing (some text) = is_blank text
