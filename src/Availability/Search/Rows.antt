-- ===== src/Availability/Search/Rows.antt =====
-- When a salon is open, by the rows of its tables.
use appointment_voice_saas.Common.{
  ℕ, ◌≡◌, refl, ◌∙◌, List, [], ◌∷◌, ◌++◌, Option, none, some, Bool, true, false, not, ◌&&◌, ◌||◌,
  ◌==◌, ltb, leb, any_of, any_of-append, filter_by, map, is_id, is_none, if◌then◌else◌, Bool-cases,
  inl, inr, arith,
}
use appointment_voice_saas.Tables.{
  Db, WorkingHours, AvailabilityException, RecurringStaffBlock, weekday,
}
use appointment_voice_saas.Availability.Windows.{Window}
use appointment_voice_saas.Availability.Windows.Points.{covers, inside}
use appointment_voice_saas.Availability.Search.{
  wh_windows, has_any_schedule, working_hours_of, exceptions_on, special_windows, window_of_times,
  or_else, blocks_on, is_empty, open_windows,
}
use appointment_voice_saas.Availability.Search.Outcome.{
  covers-open_windows, covers-working_hours_of,
}

-- From the first time on, and before the second.
abbrev pub within : ℕ → ℕ → ℕ → Bool
within p start end = leb start p && ltb p end

abbrev pub within_some : ℕ → Option ℕ → Option ℕ → Bool
within_some p (some start) (some end) = within p start end
within_some p (some start) none = false
within_some p none end = false

-- A row for everybody in the salon, or for this staff member.
abbrev pub concerns : Option ℕ → Option ℕ → Bool
concerns none row_staff = is_none row_staff
concerns (some staff_id) row_staff = is_id row_staff staff_id || is_none row_staff

abbrev pub both_given : Option ℕ → Option ℕ → Bool
both_given (some start) (some end) = true
both_given (some start) none = false
both_given none end = false

module _ (db : Db) (business_id tenant_id : ℕ) where
  abbrev pub salon_row : WorkingHours → Bool
  salon_row wh = wh.business_id == business_id && wh.tenant_id == tenant_id && is_none wh.staff_id

  abbrev pub own_row : ℕ → WorkingHours → Bool
  own_row staff_id wh =
      wh.business_id == business_id && wh.tenant_id == tenant_id && is_id wh.staff_id staff_id

  abbrev pub salon_hours : ℕ → ℕ → Bool
  salon_hours day p =
      any_of
        (λ (wh : WorkingHours).
          salon_row wh && wh.day_of_week == day && within p wh.start_time wh.end_time)
        db.working_hours

  abbrev pub own_hours : ℕ → ℕ → ℕ → Bool
  own_hours staff_id day p =
      any_of
        (λ (wh : WorkingHours).
          own_row staff_id wh && wh.day_of_week == day && within p wh.start_time wh.end_time)
        db.working_hours

  -- The salon's hours; those of a staff member who has a schedule are their own, within the
  -- salon's if it has one.
  abbrev pub works : Option ℕ → ℕ → ℕ → Bool
  works none day p = salon_hours day p
  works (some staff_id) day p =
      if any_of (own_row staff_id) db.working_hours
      then own_hours staff_id day p
        && (salon_hours day p || not (any_of salon_row db.working_hours))
      else salon_hours day p

  abbrev pub on_date : Option ℕ → ℕ → AvailabilityException → Bool
  on_date staff_id date e =
      e.business_id == business_id
      && e.tenant_id == tenant_id
      && e.date == date
      && concerns staff_id e.staff_id

  abbrev pub closed : Option ℕ → ℕ → Bool
  closed staff_id date =
      any_of (λ (e : AvailabilityException). on_date staff_id date e && e.is_closed) db.exceptions

  -- There are special hours that date.
  abbrev pub has_special : Option ℕ → ℕ → Bool
  has_special staff_id date =
      any_of
        (λ (e : AvailabilityException).
          on_date staff_id date e && (not e.is_closed && both_given e.start_time e.end_time))
        db.exceptions

  abbrev pub special : Option ℕ → ℕ → ℕ → Bool
  special staff_id date p =
      any_of
        (λ (e : AvailabilityException).
          on_date staff_id date e && (not e.is_closed && within_some p e.start_time e.end_time))
        db.exceptions

  abbrev pub blocked : Option ℕ → ℕ → ℕ → Bool
  blocked staff_id day p =
      any_of
        (λ (b : RecurringStaffBlock).
          b.business_id == business_id
          && b.tenant_id == tenant_id
          && b.day_of_week == day
          && concerns staff_id b.staff_id
          && within p b.start_time b.end_time)
        db.blocks

module _ {A : Type 0} (q t : A → Bool) where
  covers-filter_by :
      (w : A → Window) (p : ℕ) (rows : List A)
      → ((a : A) → (q a && inside p (w a)) ≡ t a)
      → covers p (map w (filter_by q rows)) ≡ any_of t rows
  covers-filter_by w p [] same = refl
  covers-filter_by w p (a ∷ rows) same = elim (Bool-cases (q a)) [
    | inl hit ↦ rw (← same a, hit, covers-filter_by w p rows same)
    | inr miss ↦ rw (← same a, miss, covers-filter_by w p rows same)
  ]

  any_of-filter_by :
      (r : A → Bool) (rows : List A)
      → ((a : A) → (q a && r a) ≡ t a)
      → any_of r (filter_by q rows) ≡ any_of t rows
  any_of-filter_by r [] same = refl
  any_of-filter_by r (a ∷ rows) same = elim (Bool-cases (q a)) [
    | inl hit ↦ rw (← same a, hit, any_of-filter_by r rows same)
    | inr miss ↦ rw (← same a, miss, any_of-filter_by r rows same)
  ]

covers-window_of_times :
    (p : ℕ) (start end : Option ℕ) → covers p (window_of_times start end) ≡ within_some p start end
covers-window_of_times p (some start) (some end) = ground arith
covers-window_of_times p (some start) none = refl
covers-window_of_times p none end = refl

is_empty-window_of_times :
    (start end : Option ℕ) → not (is_empty (window_of_times start end)) ≡ both_given start end
is_empty-window_of_times (some start) (some end) = refl
is_empty-window_of_times (some start) none = refl
is_empty-window_of_times none end = refl

covers-special_windows :
    (p : ℕ) (rows : List AvailabilityException)
    → covers p (special_windows rows)
      ≡ any_of
          (λ (e : AvailabilityException). not e.is_closed && within_some p e.start_time e.end_time)
          rows
unfolding special_windows
covers-special_windows p [] = refl
covers-special_windows p (e ∷ rest) = elim (Bool-cases e.is_closed) [
  | inl shut ↦ rw (shut, covers-special_windows p rest)
  | inr open_then ↦ rw (
    open_then,
    any_of-append (inside p) (window_of_times e.start_time e.end_time) (special_windows rest),
    covers-window_of_times p e.start_time e.end_time,
    covers-special_windows p rest,
  )
]

is_empty-append :
    (xs ys : List Window) → not (is_empty (xs ++ ys)) ≡ (not (is_empty xs) || not (is_empty ys))
is_empty-append [] ys = refl
is_empty-append (x ∷ xs) ys = refl

is_empty-special_windows :
    (rows : List AvailabilityException)
    → not (is_empty (special_windows rows))
      ≡ any_of
          (λ (e : AvailabilityException). not e.is_closed && both_given e.start_time e.end_time)
          rows
unfolding special_windows
is_empty-special_windows [] = refl
is_empty-special_windows (e ∷ rest) = elim (Bool-cases e.is_closed) [
  | inl shut ↦ rw (shut, is_empty-special_windows rest)
  | inr open_then ↦ rw (
    open_then,
    is_empty-append (window_of_times e.start_time e.end_time) (special_windows rest),
    is_empty-window_of_times e.start_time e.end_time,
    is_empty-special_windows rest,
  )
]

-- Windows that are empty cover nothing.
in_force :
    (p : ℕ) (hours special_hours : List Window) (open_day free : Bool)
    → (not (is_empty hours) && open_day && covers p (or_else special_hours hours) && free) ≡ (
        open_day
        && free
        && (if not (is_empty special_hours)
            then not (is_empty hours) && covers p special_hours
            else covers p hours))
in_force p [] [] open_day free = ground arith
in_force p [] (w ∷ special_hours) open_day free = ground arith
in_force p (h ∷ hours) [] open_day free = ground arith
in_force p (h ∷ hours) (w ∷ special_hours) open_day free = ground arith

both_schedules :
    (has_own has_salon own salon : Bool)
    → (if has_own then (if has_salon then own && salon else own) else salon)
      ≡ (if has_own then own && (salon || not has_salon) else salon)
both_schedules has_own has_salon own salon = ground arith

module _ (db : Db) (business_id tenant_id : ℕ) where
  salon_lem :
      (day p : ℕ)
      → covers p (wh_windows db business_id tenant_id day none)
        ≡ salon_hours db business_id tenant_id day p
  unfolding wh_windows
  salon_lem day p = covers-filter_by _ _ _ p db.working_hours λ wh. ground arith

  own_lem :
      (staff_id day p : ℕ)
      → covers p (wh_windows db business_id tenant_id day (some staff_id))
        ≡ own_hours db business_id tenant_id staff_id day p
  unfolding wh_windows
  own_lem staff_id day p = covers-filter_by _ _ _ p db.working_hours λ wh. ground arith

  works_lem :
      (staff_id : Option ℕ) (day p : ℕ)
      → covers p (working_hours_of db business_id tenant_id day staff_id)
        ≡ works db business_id tenant_id staff_id day p
  unfolding working_hours_of has_any_schedule
  works_lem none day p = salon_lem day p
  works_lem (some staff_id) day p =
      covers-working_hours_of db business_id tenant_id day staff_id p
      ∙ rw (own_lem staff_id day p, salon_lem day p)
          (both_schedules (has_any_schedule db business_id tenant_id (some staff_id))
            (has_any_schedule db business_id tenant_id none)
            (own_hours db business_id tenant_id staff_id day p)
            (salon_hours db business_id tenant_id day p))

  closed_lem :
      (staff_id : Option ℕ) (date : ℕ)
      → any_of
          (λ (e : AvailabilityException). e.is_closed)
          (exceptions_on db business_id tenant_id staff_id date)
        ≡ closed db business_id tenant_id staff_id date
  unfolding exceptions_on
  closed_lem none date = any_of-filter_by _ _ _ db.exceptions λ e. refl
  closed_lem (some staff_id) date = any_of-filter_by _ _ _ db.exceptions λ e. refl

  special_lem :
      (staff_id : Option ℕ) (date p : ℕ)
      → covers p (special_windows (exceptions_on db business_id tenant_id staff_id date))
        ≡ special db business_id tenant_id staff_id date p
  unfolding exceptions_on
  special_lem none date p =
      covers-special_windows p _ ∙ any_of-filter_by _ _ _ db.exceptions λ e. refl
  special_lem (some staff_id) date p =
      covers-special_windows p _ ∙ any_of-filter_by _ _ _ db.exceptions λ e. refl

  has_special_lem :
      (staff_id : Option ℕ) (date : ℕ)
      → not (is_empty (special_windows (exceptions_on db business_id tenant_id staff_id date)))
        ≡ has_special db business_id tenant_id staff_id date
  unfolding exceptions_on
  has_special_lem none date =
      is_empty-special_windows _ ∙ any_of-filter_by _ _ _ db.exceptions λ e. refl
  has_special_lem (some staff_id) date =
      is_empty-special_windows _ ∙ any_of-filter_by _ _ _ db.exceptions λ e. refl

  blocked_lem :
      (staff_id : Option ℕ) (day p : ℕ)
      → covers p (blocks_on db business_id tenant_id staff_id day)
        ≡ blocked db business_id tenant_id staff_id day p
  unfolding blocks_on
  blocked_lem none day p = covers-filter_by _ _ _ p db.blocks λ b. ground arith
  blocked_lem (some staff_id) day p = covers-filter_by _ _ _ p db.blocks λ b. ground arith

-- An instant of a date is open exactly if no exception row of the date closes it, no block row of
-- the weekday takes it, and: where the date has special hours, one of them takes it, and the weekday
-- has working hours at all; where it has none, the working hours of the weekday take it. Those of a
-- staff member who has a schedule are their own, within the salon's if it has one.
pub covers-open_windows_rows :
    (db : Db) (business_id tenant_id : ℕ) (staff_id : Option ℕ) (query_date p : ℕ)
    → covers p (open_windows db business_id tenant_id staff_id query_date) ≡ (
        not (closed db business_id tenant_id staff_id query_date)
        && not (blocked db business_id tenant_id staff_id (weekday query_date) p)
        && (if has_special db business_id tenant_id staff_id query_date
            then not
                (is_empty (working_hours_of db business_id tenant_id (weekday query_date) staff_id))
              && special db business_id tenant_id staff_id query_date p
            else works db business_id tenant_id staff_id (weekday query_date) p))
covers-open_windows_rows db business_id tenant_id staff_id query_date p =
    let exceptions = exceptions_on db business_id tenant_id staff_id query_date in
    let hours = working_hours_of db business_id tenant_id (weekday query_date) staff_id in
    covers-open_windows db business_id tenant_id staff_id query_date p
    ∙ in_force p hours (special_windows exceptions)
        (not (any_of (λ (e : AvailabilityException). e.is_closed) exceptions))
        (not (covers p (blocks_on db business_id tenant_id staff_id (weekday query_date))))
    ∙ rw (
      closed_lem db business_id tenant_id staff_id query_date,
      blocked_lem db business_id tenant_id staff_id (weekday query_date) p,
      has_special_lem db business_id tenant_id staff_id query_date,
      special_lem db business_id tenant_id staff_id query_date p,
      works_lem db business_id tenant_id staff_id (weekday query_date) p,
    )
