-- ===== src/Availability/Search.antt =====
-- app/services/availability_service.py: `_get_available_slots_for_duration` and its two callers.
-- `now_utc` is the clock; `to_utc` carries a wall-clock reading in a named zone over to UTC
-- (zoneinfo). `none` in the place of a list says that the slot loop never ends.
pub mod Free
pub mod Hours
pub mod Outcome
pub mod Rows
use appointment_voice_saas.Common.{
  ℕ, zero, suc, ◌+◌, ◌*◌, List, [], ◌∷◌, ◌++◌, map, Option, none, some, Bool, true, false, not,
  ◌&&◌, ◌||◌, ◌==◌, ltb, leb, is_id, is_none, is_some, filter_by, any_of, if◌then◌else◌, String,
}
use appointment_voice_saas.Tables.{
  Db, Business, Service, WorkingHours, AvailabilityException, RecurringStaffBlock, Booking,
  is_active, minutes, combine, weekday,
}
use appointment_voice_saas.Errors.{Result, ok, err, not_found, require_that, ◌>>=◌, ◌>>◌}
use appointment_voice_saas.Lookups.{require_business, require_service, require_staff}
use appointment_voice_saas.Availability.Windows.{
  Window, intersect_time_windows, subtract_time_windows,
}
use appointment_voice_saas.Availability.Slots.{slots_in_window}

-- Rows of exactly this scope: one staff member's, or the business-wide ones.
abbrev pub exact_scope : Option ℕ → Option ℕ → Bool
exact_scope none row_staff = is_none row_staff
exact_scope (some staff_id) row_staff = is_id row_staff staff_id

-- Rows that bear on this scope: the business-wide ones, and one staff member's.
abbrev pub wide_scope : Option ℕ → Option ℕ → Bool
wide_scope none row_staff = is_none row_staff
wide_scope (some staff_id) row_staff = is_id row_staff staff_id || is_none row_staff

-- `_wh_windows`
unfoldable pub wh_windows : Db → ℕ → ℕ → ℕ → Option ℕ → List Window
wh_windows db business_id tenant_id day_of_week filter_staff_id =
    map (λ (wh : WorkingHours). (wh.start_time, wh.end_time))
      (filter_by
        (λ (wh : WorkingHours).
          wh.business_id == business_id
          && wh.tenant_id == tenant_id
          && wh.day_of_week == day_of_week
          && exact_scope filter_staff_id wh.staff_id)
        db.working_hours)

-- `_has_any_schedule`
unfoldable pub has_any_schedule : Db → ℕ → ℕ → Option ℕ → Bool
has_any_schedule db business_id tenant_id filter_staff_id =
    any_of
      (λ (wh : WorkingHours).
        wh.business_id == business_id
        && wh.tenant_id == tenant_id
        && exact_scope filter_staff_id wh.staff_id)
      db.working_hours

unfoldable pub working_hours_of : Db → ℕ → ℕ → ℕ → Option ℕ → List Window
working_hours_of db business_id tenant_id day_of_week none =
    wh_windows db business_id tenant_id day_of_week none
working_hours_of db business_id tenant_id day_of_week (some staff_id) =
    let salon_windows = wh_windows db business_id tenant_id day_of_week none in
    let staff_windows = wh_windows db business_id tenant_id day_of_week (some staff_id) in
    if not (has_any_schedule db business_id tenant_id (some staff_id))
    then salon_windows
    else if not (has_any_schedule db business_id tenant_id none)
    then staff_windows
    else intersect_time_windows staff_windows salon_windows

unfoldable pub exceptions_on : Db → ℕ → ℕ → Option ℕ → ℕ → List AvailabilityException
exceptions_on db business_id tenant_id staff_id query_date =
    filter_by
      (λ (e : AvailabilityException).
        e.business_id == business_id
        && e.tenant_id == tenant_id
        && e.date == query_date
        && wide_scope staff_id e.staff_id)
      db.exceptions

abbrev pub window_of_times : Option ℕ → Option ℕ → List Window
window_of_times (some start_time) (some end_time) = (start_time, end_time) ∷ []
window_of_times none end_time = []
window_of_times (some start_time) none = []

-- The windows of `special_hours`. A `time` is always truthy, so only NULL columns are left out.
unfoldable pub special_windows : List AvailabilityException → List Window
special_windows [] = []
special_windows (e ∷ rest) =
    (if e.is_closed then [] else window_of_times e.start_time e.end_time) ++ special_windows rest

abbrev pub or_else : List Window → List Window → List Window
or_else [] working_hours = working_hours
or_else (w ∷ special) working_hours = w ∷ special

unfoldable pub blocks_on : Db → ℕ → ℕ → Option ℕ → ℕ → List Window
blocks_on db business_id tenant_id staff_id day_of_week =
    map (λ (b : RecurringStaffBlock). (b.start_time, b.end_time))
      (filter_by
        (λ (b : RecurringStaffBlock).
          b.business_id == business_id
          && b.tenant_id == tenant_id
          && b.day_of_week == day_of_week
          && wide_scope staff_id b.staff_id)
        db.blocks)

abbrev pub is_empty : List Window → Bool
is_empty [] = true
is_empty (w ∷ ws) = false

-- The windows in which slots are laid on a date. Subtracting no block changes nothing, so the
-- source's test for that case is left out.
unfoldable pub open_windows : Db → ℕ → ℕ → Option ℕ → ℕ → List Window
open_windows db business_id tenant_id staff_id query_date =
    let day_of_week = weekday query_date in
    let working_hours = working_hours_of db business_id tenant_id day_of_week staff_id in
    let exceptions = exceptions_on db business_id tenant_id staff_id query_date in
    if is_empty working_hours || any_of (λ (e : AvailabilityException). e.is_closed) exceptions
    then []
    else subtract_time_windows (or_else (special_windows exceptions) working_hours)
        (blocks_on db business_id tenant_id staff_id day_of_week)

abbrev pub append_both : Option (List ℕ) → Option (List ℕ) → Option (List ℕ)
append_both (some slots) (some later) = some (slots ++ later)
append_both none later = none
append_both (some slots) none = none

unfoldable pub candidate_starts : (ℕ → ℕ) → ℕ → ℕ → List Window → Option (List ℕ)
candidate_starts to_utc query_date duration_minutes [] = some []
candidate_starts to_utc query_date duration_minutes ((window_start, window_end) ∷ rest) =
    append_both (slots_in_window to_utc query_date window_start window_end duration_minutes)
      (candidate_starts to_utc query_date duration_minutes rest)

unfoldable pub insert_new : ℕ → List ℕ → List ℕ
insert_new a [] = a ∷ []
insert_new a (x ∷ xs) =
    let later = insert_new a xs in
    if ltb a x then a ∷ x ∷ xs else if a == x then x ∷ xs else x ∷ later

-- sorted(set(...))
unfoldable pub sorted_set : List ℕ → List ℕ
unfolding insert_new
sorted_set [] = []
sorted_set (x ∷ xs) = insert_new x (sorted_set xs)

abbrev pub any_staff : Option ℕ → Option ℕ → Bool
any_staff none row_staff = true
any_staff (some staff_id) row_staff = is_id row_staff staff_id

unfoldable pub bookings_between : Db → ℕ → ℕ → Option ℕ → ℕ → ℕ → List Booking
bookings_between db business_id tenant_id staff_id day_start_utc day_end_utc =
    filter_by
      (λ (b : Booking).
        b.business_id == business_id
        && b.tenant_id == tenant_id
        && is_active b.status
        && ltb b.starts_at day_end_utc
        && ltb day_start_utc b.ends_at
        && any_staff staff_id b.staff_id)
      db.bookings

abbrev pub clashes : ℕ → ℕ → Booking → Bool
clashes slot_start slot_end b = ltb b.starts_at slot_end && ltb slot_start b.ends_at

unfoldable pub free_slots : ℕ → ℕ → List Booking → List ℕ → List (ℕ × ℕ)
free_slots now_utc duration bookings [] = []
free_slots now_utc duration bookings (slot_start ∷ rest) =
    let later = free_slots now_utc duration bookings rest in
    if leb slot_start now_utc
    then later
    else if any_of (clashes slot_start (slot_start + duration)) bookings
    then later
    else (slot_start, slot_start + duration) ∷ later

abbrev pub free_of_candidates : ℕ → ℕ → List Booking → Option (List ℕ) → Option (List (ℕ × ℕ))
free_of_candidates now_utc duration bookings none = none
free_of_candidates now_utc duration bookings (some starts) =
    some (free_slots now_utc duration bookings (sorted_set starts))

unfoldable pub get_available_slots_for_duration :
    ℕ → (String → ℕ → ℕ) → Db → Business → ℕ → ℕ → Option ℕ → ℕ → ℕ → Option (List (ℕ × ℕ))
get_available_slots_for_duration now_utc zones db business business_id tenant_id staff_id
      duration_minutes query_date =
    let to_utc = zones business.timezone in
    let day_start_utc = to_utc (combine query_date 0) in
    let day_end_utc = to_utc (combine (query_date + 1) 0) in
    free_of_candidates now_utc (minutes duration_minutes)
      (bookings_between db business_id tenant_id staff_id day_start_utc day_end_utc)
      (candidate_starts to_utc query_date duration_minutes
        (open_windows db business_id tenant_id staff_id query_date))

-- `if staff_id is not None: ...`
unfoldable pub check_staff : Db → ℕ → ℕ → Option ℕ → Result (Unit {0})
check_staff db business_id tenant_id none = ok tt
check_staff db business_id tenant_id (some staff_id) = do
  staff ← require_staff db staff_id tenant_id
  require_that (staff.business_id == business_id) (not_found "Staff member not found")

unfoldable pub get_available_slots :
    ℕ → (String → ℕ → ℕ) → Db → ℕ → ℕ → ℕ → Option ℕ → ℕ → Result (Option (List (ℕ × ℕ)))
unfolding check_staff
get_available_slots now_utc zones db tenant_id business_id service_id staff_id query_date = do
  business ← require_business db business_id tenant_id
  svc ← require_service db service_id tenant_id
  require_that (svc.business_id == business_id) (not_found "Service not found")
  check_staff db business_id tenant_id staff_id
  ok (
      get_available_slots_for_duration now_utc zones db business business_id tenant_id staff_id
        svc.duration_minutes query_date)

unfoldable pub get_available_slots_for_total_duration :
    ℕ → (String → ℕ → ℕ) → Db → ℕ → ℕ → ℕ → Option ℕ → ℕ → Result (Option (List (ℕ × ℕ)))
unfolding check_staff
get_available_slots_for_total_duration now_utc zones db tenant_id business_id total_duration_minutes
      staff_id query_date =
    do
      business ← require_business db business_id tenant_id
      check_staff db business_id tenant_id staff_id
      ok (
          get_available_slots_for_duration now_utc zones db business business_id tenant_id staff_id
            total_duration_minutes query_date)
