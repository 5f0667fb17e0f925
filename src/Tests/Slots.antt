-- ===== src/Tests/Slots.antt =====
-- The theorems on availability, in the salon.
use appointment_voice_saas.Common.{
  All, ℕ, ◌+◌, ◌<◌, ◌≡◌, refl, some, List, [], ◌∷◌, true, false, arith,
}
use appointment_voice_saas.Tables.{minutes}
use appointment_voice_saas.Availability.Windows.{subtract_time_windows}
use appointment_voice_saas.Availability.Windows.Points.{covers, covers-subtract_time_windows}
use appointment_voice_saas.Availability.Slots.{slots_in_window}
use appointment_voice_saas.Availability.Slots.Exact.{slots_in_window-spaced}
use appointment_voice_saas.Availability.Search.{
  open_windows, candidate_starts, exceptions_on, working_hours_of, blocks_on, special_windows,
  has_any_schedule, wh_windows, sorted_set, free_slots, get_available_slots_for_duration,
  bookings_between,
}
use appointment_voice_saas.Availability.Search.Outcome.{
  search_total, search_sound, has_slot-search, Beside,
}
use appointment_voice_saas.Availability.Search.Rows.{covers-open_windows_rows}
use appointment_voice_saas.Availability.Search.Free.{starts, IsAscending, has_slot}
use appointment_voice_saas.Availability.Search.Hours.{Fits}
use appointment_voice_saas.Tests.Samples.{at, salon, tables}

-- A window of nine to two, with a block that covers eleven and one that is reversed.
covers-subtract_time_windows_example :
    covers (at 11 0) (
      subtract_time_windows
        ((at 9 0, at 14 0) ∷ [])
        ((at 10 0, at 12 0) ∷ (at 13 0, at 12 30) ∷ []))
    ≡ false
covers-subtract_time_windows_example =
    covers-subtract_time_windows (at 11 0) ((at 9 0, at 14 0) ∷ [])
      ((at 10 0, at 12 0) ∷ (at 13 0, at 12 30) ∷ [])

-- Three slots of fifty minutes between nine and a quarter to twelve.
slots_in_window-spaced_example :
    slots_in_window (λ t. t) 0 (at 9 0) (at 11 45) 50 ≡ some (at 9 0 ∷ at 9 50 ∷ at 10 40 ∷ [])
slots_in_window-spaced_example =
    slots_in_window-spaced (λ t. t) 0 (at 9 0) (at 11 45) 50 (omega arith)

-- Noon falls in the stylist's lunch.
covers-open_windows_rows_example : covers (at 12 0) (open_windows tables 1 1 (some 1) 0) ≡ false
covers-open_windows_rows_example = covers-open_windows_rows tables 1 1 (some 1) 0 (at 12 0)

abbrev slots : List (ℕ × ℕ)
slots = (at 9 0, at 10 0) ∷ (at 11 0, at 12 0) ∷ []

search_example :
    get_available_slots_for_duration (at 8 0) (λ zone t. t) tables salon 1 1 (some 1) 60 0
    ≡ some slots
unfolding get_available_slots_for_duration candidate_starts open_windows exceptions_on
    working_hours_of blocks_on special_windows has_any_schedule wh_windows subtract_time_windows
    sorted_set free_slots bookings_between slots_in_window
search_example = refl

search_total_example :
    (found : List (ℕ × ℕ)) × (get_available_slots_for_duration
        (at 8 0)
        (λ zone t. t)
        tables
        salon
        1
        1
        (some 1)
        60
        0
      ≡ some found)
    × IsAscending (starts found)
search_total_example =
    search_total (at 8 0) (λ zone t. t) tables salon 1 1 (some 1) 60 0 (omega arith)

has_slot-search_example : has_slot (at 11 0) (at 12 0) slots ≡ true
unfolding candidate_starts open_windows exceptions_on working_hours_of blocks_on special_windows
    has_any_schedule wh_windows subtract_time_windows slots_in_window bookings_between
has_slot-search_example =
    has_slot-search (at 8 0) (λ zone t. t) tables salon 1 1 (some 1) 60 0 (omega arith)
      (at 9 0 ∷ at 10 0 ∷ at 11 0 ∷ at 13 0 ∷ []) slots (at 11 0) (at 12 0) refl search_example

search_sound_example :
    (at 8 0 < at 11 0)
    × (at 12 0 ≡ at 11 0 + minutes 60)
    × All (Beside (at 11 0) (at 12 0)) (bookings_between tables 1 1 (some 1) 0 (at 24 0))
    × Fits (λ t. t) 0 (minutes 60) (at 11 0) (open_windows tables 1 1 (some 1) 0)
search_sound_example =
    search_sound (at 8 0) (λ zone t. t) tables salon 1 1 (some 1) 60 0 (omega arith) slots (at 11 0)
      (at 12 0) search_example refl
