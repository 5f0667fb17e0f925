-- ===== src/Booking/Lists.antt =====
-- app/services/booking_service.py: a customer's bookings, the line items of one, and the bookings of
-- a business.
pub mod Soonest
use appointment_voice_saas.Common.{
  ℕ, ◌+◌, Option, none, some, List, [], ◌∷◌, Bool, true, false, ◌&&◌, ◌==◌, ltb, leb, is_id,
  is_some, length, filter_by, order_by, head, page,
}
use appointment_voice_saas.Tables.{Db, Booking, BookingStatus, BookingLineItem, is_confirmed}
use appointment_voice_saas.Errors.{Result, ok, not_found, require_that, ◌>>=◌, ◌>>◌}
use appointment_voice_saas.Lookups.{require_service}
use appointment_voice_saas.Session.{Action, pure, read, query, modify, fresh_id, commit}
use appointment_voice_saas.Session as Session
use appointment_voice_saas.Env.{Env}
use appointment_voice_saas.Booking.Reads.{require_booking}

-- The filters of `get_next_confirmed_booking`.
abbrev pub is_upcoming : Env → ℕ → ℕ → ℕ → Booking → Bool
is_upcoming env business_id tenant_id customer_id b =
    b.business_id == business_id
    && b.tenant_id == tenant_id
    && b.customer_id == customer_id
    && is_confirmed b.status
    && ltb env.now b.starts_at

abbrev pub starts_before : Booking → Booking → Bool
starts_before a b = leb a.starts_at b.starts_at

abbrev pub starts_after : Booking → Booking → Bool
starts_after a b = leb b.starts_at a.starts_at

unfoldable pub get_next_confirmed_booking : Env → Db → ℕ → ℕ → ℕ → Option Booking
get_next_confirmed_booking env db business_id tenant_id customer_id = head (
    order_by starts_before
      (filter_by (is_upcoming env business_id tenant_id customer_id) db.bookings))

unfoldable pub get_last_staff_booking : Db → ℕ → ℕ → ℕ → Option Booking
get_last_staff_booking db business_id tenant_id customer_id = head (
    order_by starts_after (
      filter_by
        (λ (b : Booking).
          b.business_id == business_id
          && b.tenant_id == tenant_id
          && b.customer_id == customer_id
          && is_some b.staff_id)
        db.bookings))

abbrev pub add_line_item : BookingLineItem → Db → Db
add_line_item row db = record db { line_items = row ∷ db.line_items }

unfoldable pub count_line_items : ℕ → Db → ℕ
count_line_items booking_id db =
    length (filter_by (λ (i : BookingLineItem). i.booking_id == booking_id) db.line_items)

unfoldable pub list_booking_line_items : Db → ℕ → ℕ → Result (List BookingLineItem)
list_booking_line_items db booking_id tenant_id = do
  booking ← require_booking db booking_id tenant_id
  ok (
      order_by (λ (i j : BookingLineItem). leb i.position j.position)
        (filter_by (λ (i : BookingLineItem). i.booking_id == booking_id && i.tenant_id == tenant_id)
          db.line_items))

abbrev pub sum_of_durations : List BookingLineItem → ℕ
sum_of_durations [] = 0
sum_of_durations (item ∷ rest) = item.duration_minutes + sum_of_durations rest

unfoldable pub get_booking_total_duration_minutes : Db → ℕ → ℕ → Result ℕ
unfolding list_booking_line_items
get_booking_total_duration_minutes db booking_id tenant_id = do
  line_items ← list_booking_line_items db booking_id tenant_id
  ok (sum_of_durations line_items)

abbrev pub same_status : BookingStatus → BookingStatus → Bool
same_status BookingStatus.confirmed status = is_confirmed status
same_status BookingStatus.cancelled BookingStatus.cancelled = true
same_status BookingStatus.cancelled status = false
same_status BookingStatus.pending_payment BookingStatus.pending_payment = true
same_status BookingStatus.pending_payment status = false

-- `if status is not None: query = query.filter(Booking.status == status)`
abbrev pub if_status : Option BookingStatus → Booking → Bool
if_status none b = true
if_status (some status) b = same_status status b.status

abbrev pub if_staff : Option ℕ → Booking → Bool
if_staff none b = true
if_staff (some staff_id) b = is_id b.staff_id staff_id

unfoldable pub list_bookings : Db → ℕ → ℕ → Option BookingStatus → Option ℕ → ℕ → ℕ → List Booking
list_bookings db business_id tenant_id status staff_id skip limit = page skip limit (
    order_by starts_before (
      filter_by
        (λ (b : Booking).
          b.business_id == business_id
          && b.tenant_id == tenant_id
          && if_status status b
          && if_staff staff_id b)
        db.bookings))
