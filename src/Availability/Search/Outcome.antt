-- ===== src/Availability/Search/Outcome.antt =====
-- What a search of a date returns.
use appointment_voice_saas.Common.{
  ◌≤◌, ◌⊎◌, ◌∷◌, All, ℕ, ◌+◌, ◌<◌, ◌≡◌, refl, sym, ◌∙◌, List, [], Option, none, some, Bool, true,
  false, not, ◌&&◌, ◌||◌, ◌==◌, ltb, any_of, if◌then◌else◌, arith, String,
}
use appointment_voice_saas.Tables.{
  Db, Business, Booking, AvailabilityException, minutes, combine, weekday,
}
use appointment_voice_saas.Availability.Windows.{Window, subtract_time_windows}
use appointment_voice_saas.Availability.Windows.Points.{
  covers, covers-subtract_time_windows, covers-intersect_time_windows,
}
use appointment_voice_saas.Availability.Search.{
  wh_windows, has_any_schedule, working_hours_of, exceptions_on, special_windows, or_else,
  blocks_on, is_empty, open_windows, candidate_starts, clashes, bookings_between,
  get_available_slots_for_duration, free_slots, sorted_set,
}
use appointment_voice_saas.Availability.Search.Free.{
  elem, has_slot, starts, IsAscending, free_slots-sorted_set-IsAscending,
  has_slot-free_slots-sorted_set,
}
use appointment_voice_saas.Availability.Search.Hours.{
  Fits, candidate_starts-Fits, candidate_starts_total,
}

covers_clipped :
    (p : ℕ) (empty closed : Bool) (base blocks : List Window)
    → covers p (if empty || closed then [] else subtract_time_windows base blocks)
      ≡ (not empty && not closed && covers p base && not (covers p blocks))
covers_clipped p true closed base blocks = refl
covers_clipped p false true base blocks = refl
covers_clipped p false false base blocks = covers-subtract_time_windows p base blocks

-- An instant of a date is open exactly if there are working hours on that weekday, no exception
-- of that date closes it, the windows in force (special hours, or else the working hours) cover
-- it and no recurring block does.
pub covers-open_windows :
    (db : Db) (business_id tenant_id : ℕ) (staff_id : Option ℕ) (query_date p : ℕ)
    → let working_hours = working_hours_of db business_id tenant_id (weekday query_date) staff_id in
      let exceptions = exceptions_on db business_id tenant_id staff_id query_date in
      covers p (open_windows db business_id tenant_id staff_id query_date) ≡ (
        not (is_empty working_hours)
        && not (any_of (λ (e : AvailabilityException). e.is_closed) exceptions)
        && covers p (or_else (special_windows exceptions) working_hours)
        && not (covers p (blocks_on db business_id tenant_id staff_id (weekday query_date))))
unfolding open_windows
covers-open_windows db business_id tenant_id staff_id query_date p =
    covers_clipped p (is_empty working_hours)
      (any_of (λ (e : AvailabilityException). e.is_closed) exceptions)
      (or_else (special_windows exceptions) working_hours)
      (blocks_on db business_id tenant_id staff_id (weekday query_date))
  where
    working_hours : List Window
    working_hours = working_hours_of db business_id tenant_id (weekday query_date) staff_id

    exceptions : List AvailabilityException
    exceptions = exceptions_on db business_id tenant_id staff_id query_date

-- A staff member's working hours: the salon's if the member has no schedule at all, the member's
-- own if the salon has none, and otherwise just the instants at which both are open.
pub covers-working_hours_of :
    (db : Db) (business_id tenant_id day_of_week staff_id p : ℕ)
    → let salon = covers p (wh_windows db business_id tenant_id day_of_week none) in
      let own = covers p (wh_windows db business_id tenant_id day_of_week (some staff_id)) in
      covers p (working_hours_of db business_id tenant_id day_of_week (some staff_id)) ≡ (
        if has_any_schedule db business_id tenant_id (some staff_id)
        then (if has_any_schedule db business_id tenant_id none then own && salon else own)
        else salon)
unfolding working_hours_of
covers-working_hours_of db business_id tenant_id day_of_week staff_id p = ground (
  arith,
  covers-intersect_time_windows p (wh_windows db business_id tenant_id day_of_week (some staff_id))
      (wh_windows db business_id tenant_id day_of_week none),
)

-- A booking that is over before a slot begins, or begins when the slot is over.
abbrev pub Beside : ℕ → ℕ → Booking → Type 0
Beside start end b = (end ≤ b.starts_at) ⊎ (b.ends_at ≤ start)

Beside-clashes : (start end : ℕ) (b : Booking) → clashes start end b ≡ false → Beside start end b
Beside-clashes start end b h = ground arith

All-Beside :
    (start end : ℕ) (bs : List Booking)
    → any_of (clashes start end) bs ≡ false
    → All (Beside start end) bs
All-Beside start end [] h = tt
All-Beside start end (b ∷ bs) h =
    (Beside-clashes start end b (ground arith), All-Beside start end bs (ground arith))

some_eq : (xs ys : List (ℕ × ℕ)) → some xs ≡ some ys → xs ≡ ys
some_eq xs ys e = cc

four_tests :
    (candidate : Bool) (now start end end' : ℕ) (taken : Bool)
    → (candidate && ltb now start && end == end' && not taken) ≡ true
    → (candidate ≡ true) × (now < start) × (end ≡ end') × (taken ≡ false)
four_tests candidate now start end end' taken h = ground arith

module _ (now_utc : ℕ) (zones : String → ℕ → ℕ) (db : Db) (business : Business)
    (business_id tenant_id : ℕ) (staff_id : Option ℕ) (duration_minutes query_date : ℕ)
    (positive : 0 < duration_minutes) where
  abbrev search : Option (List (ℕ × ℕ))
  search =
      get_available_slots_for_duration now_utc zones db business business_id tenant_id staff_id
        duration_minutes query_date

  abbrev bookings_of_day : List Booking
  bookings_of_day =
      bookings_between db business_id tenant_id staff_id
        (zones business.timezone (combine query_date 0))
        (zones business.timezone (combine (query_date + 1) 0))

  abbrev windows : List Window
  windows = open_windows db business_id tenant_id staff_id query_date

  -- For a service of positive length the search returns, and its slots start in strictly
  -- ascending order.
  pub search_total :
      (slots : List (ℕ × ℕ)) × (get_available_slots_for_duration now_utc zones db business
          business_id tenant_id staff_id duration_minutes query_date
        ≡ some slots)
      × IsAscending (starts slots)
  unfolding get_available_slots_for_duration
  search_total =
      let (candidates, e) =
        candidate_starts_total (zones business.timezone) query_date duration_minutes windows
          positive in
      (
        free_slots now_utc (minutes duration_minutes) bookings_of_day (sorted_set candidates),
        rw e,
        free_slots-sorted_set-IsAscending now_utc (minutes duration_minutes) bookings_of_day
            candidates,
      )

  -- The slots of a search are exactly the candidates of the open windows that lie ahead of the
  -- clock, as long as the service and clear of the bookings of the day.
  pub has_slot-search :
      (candidates : List ℕ) (slots : List (ℕ × ℕ)) (start end : ℕ)
      → candidate_starts (zones business.timezone) query_date duration_minutes windows
        ≡ some candidates
      → search ≡ some slots
      → has_slot start end slots ≡ (
          elem start candidates
          && ltb now_utc start
          && end == start + minutes duration_minutes
          && not (any_of (clashes start (start + minutes duration_minutes)) bookings_of_day))
  unfolding get_available_slots_for_duration
  has_slot-search candidates slots start end e h =
      let computed : search
          ≡ some (
              free_slots now_utc (minutes duration_minutes) bookings_of_day
                (sorted_set candidates)) =
        rw e in
      rw (some_eq slots _ (sym h ∙ computed)) (
        has_slot-free_slots-sorted_set now_utc (minutes duration_minutes) bookings_of_day start end
          candidates)

  -- Every slot that a search returns begins after the clock, is as long as the service, overlaps
  -- none of the bookings of the day, and on the wall clock runs through open time only.
  pub search_sound :
      (slots : List (ℕ × ℕ)) (start end : ℕ)
      → search ≡ some slots
      → has_slot start end slots ≡ true
      → (now_utc < start)
        × (end ≡ start + minutes duration_minutes)
        × All (Beside start end) bookings_of_day
        × Fits (zones business.timezone) query_date (minutes duration_minutes) start windows
  search_sound slots start end h offered =
      let (candidates, e) =
        candidate_starts_total (zones business.timezone) query_date duration_minutes windows
          positive in
      let (candidate, ahead, length, clear) =
        four_tests (elem start candidates) now_utc start end (start + minutes duration_minutes)
          (any_of (clashes start (start + minutes duration_minutes)) bookings_of_day)
          (sym (has_slot-search candidates slots start end e h) ∙ offered) in
      (
        ahead,
        length,
        All-Beside start end bookings_of_day (rw length clear),
        candidate_starts-Fits (zones business.timezone) query_date duration_minutes start windows
            candidates positive e candidate,
      )
