-- ===== src/Booking/Overlap.antt =====
-- app/services/booking_service.py: `_check_double_booking`; and the exclusion constraint
-- `no_overlapping_staff_bookings` of the bookings table (alembic/versions), which an INSERT is
-- checked against after the primary key.
pub mod Exclusion
pub mod Apart
use appointment_voice_saas.Common.{
  ℕ, Option, none, some, List, [], ◌∷◌, ◌++◌, Bool, true, false, not, ◌&&◌, ◌||◌, ◌==◌, ltb, is_id,
  find_by, any_of, if◌then◌else◌,
}
use appointment_voice_saas.Tables.{Db, Booking, is_active}
use appointment_voice_saas.Errors.{
  Result, ok, err, conflict, integrity_error, no_overlapping_staff_bookings, bookings_pkey,
}
use appointment_voice_saas.Session.{Action, read, modify, ◌>>=◌, ◌>>◌}
use appointment_voice_saas.Env.{Env}

abbrev pub excluded : Option ℕ → Booking → Bool
excluded none b = false
excluded (some booking_id) b = b.id == booking_id

-- The rows of the query in `_check_double_booking`.
abbrev pub is_double_booking : ℕ → ℕ → ℕ → ℕ → Option ℕ → Booking → Bool
is_double_booking staff_id business_id starts_at ends_at exclude_booking_id b =
    is_id b.staff_id staff_id
    && b.business_id == business_id
    && is_active b.status
    && ltb b.starts_at ends_at
    && ltb starts_at b.ends_at
    && not (excluded exclude_booking_id b)

unfoldable pub check_double_booking : Db → Option ℕ → ℕ → ℕ → ℕ → Option ℕ → Result (Unit {0})
check_double_booking db none business_id starts_at ends_at exclude_booking_id = ok tt
check_double_booking db (some staff_id) business_id starts_at ends_at exclude_booking_id =
    if any_of (is_double_booking staff_id business_id starts_at ends_at exclude_booking_id)
      db.bookings
    then err (conflict "This time slot is already booked for the selected staff")
    else ok tt

abbrev pub same_staff : Option ℕ → Option ℕ → Bool
same_staff none other = false
same_staff (some staff_id) other = is_id other staff_id

-- Two rows that the exclusion constraint keeps apart. (PostgreSQL refuses a tstzrange whose
-- end lies before its start, and takes one with equal ends for empty.)
abbrev pub excludes : Booking → Booking → Bool
excludes a b =
    is_active a.status
    && is_active b.status
    && same_staff a.staff_id b.staff_id
    && ltb a.starts_at a.ends_at
    && ltb b.starts_at b.ends_at
    && ltb b.starts_at a.ends_at
    && ltb a.starts_at b.ends_at

abbrev pub exclusion_check : List Booking → Booking → Db → Result (Unit {0})
exclusion_check raced b db =
    if any_of (excludes b) (raced ++ db.bookings)
    then err (integrity_error no_overlapping_staff_bookings)
    else ok tt

abbrev pub primary_key_check : Booking → Db → Result (Unit {0})
primary_key_check b db =
    if any_of (λ (c : Booking). c.id == b.id) db.bookings
    then err (integrity_error bookings_pkey)
    else ok tt

abbrev pub add_booking : Booking → Db → Db
add_booking b db = record db { bookings = b ∷ db.bookings }

-- db.add(booking); db.flush()
unfoldable pub insert_booking : Env → Booking → Action (Unit {0})
insert_booking env b = do
  read (primary_key_check b)
  read (exclusion_check env.raced b)
  modify (add_booking b)
