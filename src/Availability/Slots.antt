-- ===== src/Availability/Slots.antt =====
-- app/services/availability_service.py: `_slots_in_window`.
-- `current`, `start_local` and `end_local` carry the same tzinfo, so Python adds to and compares
-- their wall-clock readings; `to_utc` is `.astimezone(timezone.utc)` on such a reading.
pub mod Exact
use appointment_voice_saas.Common.{
  ℕ, zero, suc, ◌+◌, ◌-◌, ◌*◌, ◌/◌, List, [], ◌∷◌, Option, none, some, leb, if◌then◌else◌,
}
use appointment_voice_saas.Tables.{minutes, combine}

abbrev pub prepend : ℕ → Option (List ℕ) → Option (List ℕ)
prepend slot none = none
prepend slot (some slots) = some (slot ∷ slots)

-- The `while` loop, with fuel: `none` says that it still runs.
unfoldable pub slots_loop : ℕ → (ℕ → ℕ) → ℕ → ℕ → ℕ → Option (List ℕ)
slots_loop zero to_utc current end_local duration = none
slots_loop (suc fuel) to_utc current end_local duration =
    let later =
      prepend (to_utc current) (slots_loop fuel to_utc (current + duration) end_local duration) in
    if leb (current + duration) end_local then later else some []

-- One round for each slot that fits and one for the test that ends the loop.
abbrev pub enough_rounds : ℕ → ℕ → ℕ
enough_rounds span duration = span / duration + 1

unfoldable pub slots_in_window : (ℕ → ℕ) → ℕ → ℕ → ℕ → ℕ → Option (List ℕ)
unfolding slots_loop
slots_in_window to_utc query_date window_start window_end duration_minutes =
    let duration = minutes duration_minutes in
    let start_local = combine query_date window_start in
    let end_local = combine query_date window_end in
    slots_loop (enough_rounds (end_local - start_local) duration) to_utc start_local end_local
      duration
