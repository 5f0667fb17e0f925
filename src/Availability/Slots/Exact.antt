-- ===== src/Availability/Slots/Exact.antt =====
-- The slots of a window in closed form, and the loop's termination.
use appointment_voice_saas.Common.{
  ℕ, zero, suc, ◌+◌, ◌-◌, ◌*◌, ◌/◌, ◌<◌, ◌≤◌, ◌≡◌, refl, List, [], ◌∷◌, none, some, map, arith,
}
use native.Mathlib.Decide.{dec_le}
use native.Mathlib.Numerals.{add-one}
use appointment_voice_saas.Tables.{minutes, combine}
use appointment_voice_saas.Availability.Slots.{slots_loop, enough_rounds, slots_in_window}

-- n instants from `start` on, `step` apart.
abbrev pub spaced : ℕ → ℕ → ℕ → List ℕ
spaced start step zero = []
spaced start step (suc n) = start ∷ spaced (start + step) step n

-- If exactly n more slots fit, then n + 1 rounds end the loop.
slots_loop-spaced :
    (n : ℕ) (to_utc : ℕ → ℕ) (current end duration : ℕ)
    → current + n * duration ≤ end
    → end < current + n * duration + duration
    → slots_loop (suc n) to_utc current end duration ≡ some (map to_utc (spaced current duration n))
unfolding slots_loop
slots_loop-spaced zero to_utc current end duration fits over = ground arith
slots_loop-spaced (suc n) to_utc current end duration fits over = ground (
  arith,
  slots_loop-spaced n to_utc (current + duration) end duration (grind arith) (grind arith),
)

slots_loop_over :
    (fuel : ℕ) (to_utc : ℕ → ℕ) (current end duration : ℕ)
    → end < current + duration
    → slots_loop (suc fuel) to_utc current end duration ≡ some []
unfolding slots_loop
slots_loop_over fuel to_utc current end duration over = ground arith

slots_loop_rounds :
    (to_utc : ℕ → ℕ) (start end duration : ℕ)
    → 0 < duration
    → slots_loop (enough_rounds (end - start) duration) to_utc start end duration
      ≡ some (map to_utc (spaced start duration ((end - start) / duration)))
slots_loop_rounds to_utc start end duration positive = rw add-one (elim (dec_le start end) [
  | yes ordered ↦
      slots_loop-spaced ((end - start) / duration) to_utc start end duration (grind arith)
        (grind arith)
  | no reversed ↦
      let none_fit : (end - start) / duration ≡ 0 = grind arith in
      rw none_fit (slots_loop_over 0 to_utc start end duration (omega arith))
])

-- For a positive duration the loop ends, and the slots are the instants spaced by the duration
-- from the start of the window, as many as the duration goes into the window (none if the window
-- is reversed), each carried over to UTC.
pub slots_in_window-spaced :
    (to_utc : ℕ → ℕ) (query_date window_start window_end duration_minutes : ℕ)
    → 0 < duration_minutes
    → slots_in_window to_utc query_date window_start window_end duration_minutes
      ≡ some (
          map to_utc (
            spaced
              (combine query_date window_start)
              (minutes duration_minutes)
              ((window_end - window_start) / minutes duration_minutes)))
unfolding slots_in_window
slots_in_window-spaced to_utc query_date window_start window_end duration_minutes positive =
    let span : combine query_date window_end - combine query_date window_start
        ≡ window_end - window_start =
      omega arith in
    rw (← span) (
      slots_loop_rounds to_utc (combine query_date window_start) (combine query_date window_end)
        (minutes duration_minutes) (omega arith))

-- With a duration of zero and a window that is not reversed, no number of rounds ends the loop.
pub slots_loop_diverges :
    (fuel : ℕ) (to_utc : ℕ → ℕ) (current end : ℕ)
    → current ≤ end
    → slots_loop fuel to_utc current end 0 ≡ none
unfolding slots_loop
slots_loop_diverges zero to_utc current end h = refl
slots_loop_diverges (suc fuel) to_utc current end h =
    ground (arith, slots_loop_diverges fuel to_utc (current + 0) end)
